-- ===== src/Alsa/Source/Streams.antt =====
-- The chunks that a source produces, as streams: data, and an end.
use mathlib.Core.Path.{subst}
use slimstream.Base.{
  ℕ, zero, suc, ◌+◌, ◌≡◌, refl, ◌∙◌, sym, if_cases, Bool, true, false, Option, List, [], ◌∷◌, arith,
}
use slimstream.Chunk.{Chunk}
use slimstream.Util.Time.{Timestamp}
use slimstream.Alsa.Parameters.{Parameters}
use slimstream.Alsa.Source.{Source, Read, period, failed, add_chunk, produce_period, produce}
use slimstream.Alsa.Source.Period.{end_chunk, outcome, produce_period-outcome}

-- Chunks from the beginning of a stream on, or from within one: an end comes only after data.
pub data Framed : Bool → List Chunk → Type 0 where
  no_more : {beginning : Bool} → Framed beginning []
  has_data :
      {beginning : Bool} {c : Chunk} {cs : List Chunk}
      → c.end_of_stream ≡ false
      → Framed false cs
      → Framed beginning (c ∷ cs)
  ended :
      {c : Chunk} {cs : List Chunk}
      → c.end_of_stream ≡ true
      → c.frames ≡ 0
      → Framed true cs
      → Framed false (c ∷ cs)

unfoldable pub total_frames : List Chunk → ℕ
total_frames [] = 0
total_frames (c ∷ cs) = c.frames + total_frames cs

-- what a period does to the frames captured and to the beginning of a stream
Stepped : Source → Source × Option Chunk → Type 0
Stepped s r =
    ((cs : List Chunk)
      → Framed r.0.is_beginning_of_stream cs
      → Framed s.is_beginning_of_stream (add_chunk r.1 cs))
    × ((cs : List Chunk)
        → s.captured_frames + total_frames (add_chunk r.1 cs)
          ≡ r.0.captured_frames + total_frames cs)

module _ (p : Parameters) (slot : Chunk) (timestamp : Timestamp) (src : List ℕ) (s : Source) where
  outcome-Stepped :
      (full : Bool) (is : List ℕ) (now : Bool)
      → Stepped s (outcome p slot timestamp src s full is now)
  unfolding Stepped total_frames
  outcome-Stepped true [] now = (λ cs f. f, λ cs. refl)
  outcome-Stepped true (i ∷ is) now = (λ cs f. f, λ cs. refl)
  outcome-Stepped false [] now =
      if_cases {A = Source × Option Chunk} (Stepped s) s.is_beginning_of_stream
        (λ _. (λ cs f. f, λ cs. refl))
        (λ b. (
          λ cs f.
              subst (λ x. Framed x (end_chunk p slot timestamp src s ∷ cs)) (sym b)
                (ended refl refl f),
          λ cs. omega arith,
        ))
  outcome-Stepped false (i ∷ is) now = (λ cs f. has_data refl f, λ cs. omega arith)

  period-Stepped : (full : Bool) (n : ℕ) → Stepped s (produce_period p full slot timestamp src n s)
  unfolding Stepped produce_period
  period-Stepped full zero = (λ cs f. f, λ cs. refl)
  period-Stepped full (suc n) =
      subst (Stepped s)
        (sym (produce_period-outcome p slot timestamp src s full (suc n) (omega arith)))
        (outcome-Stepped full _ _)

-- Whatever a device delivers and whenever the queue is full, the chunks in the queue are streams: an end
-- has no frames, and comes only after data.
pub produce-Framed :
    (p : Parameters) (reads : List Read) (s : Source)
    → Framed s.is_beginning_of_stream (produce p reads s).0
unfolding produce Stepped
produce-Framed p [] s = no_more
produce-Framed p (failed ∷ reads) s = no_more
produce-Framed p (period full slot timestamp src n ∷ reads) s =
    (period-Stepped p slot timestamp src s full n).0 _
      (produce-Framed p reads (produce_period p full slot timestamp src n s).0)

-- The frames that a source counts are those of the chunks in the queue.
pub produce-total_frames :
    (p : Parameters) (reads : List Read) (s : Source)
    → s.captured_frames + total_frames (produce p reads s).0 ≡ (produce p reads s).1.captured_frames
unfolding produce Stepped total_frames
produce-total_frames p [] s = omega arith
produce-total_frames p (failed ∷ reads) s = omega arith
produce-total_frames p (period full slot timestamp src n ∷ reads) s =
    (period-Stepped p slot timestamp src s full n).1 _
    ∙ produce-total_frames p reads (produce_period p full slot timestamp src n s).0
