-- ===== src/Proto/CommandSession/Probes.antt =====
-- The vector of latency probes, and what is computed of it.
use slimstream.Base.{
  ℕ, zero, suc, ◌*◌, ◌/◌, Bool, false, not, ◌&&◌, Option, none, some, List, [], ◌∷◌, ◌++◌, length,
  get_elem?, drop, leb, ◌==◌, if◌then◌else◌,
}
use slimstream.Base.Int.{pos, negsuc, is_zero, ltb_ℤ}
use slimstream.Util.Time.{Timestamp, Duration}
use slimstream.Proto.CommandSession.State.{ProbeValues, Probes, blank_probe}

abbrev pub size : Probes → ℕ
size p = length p.elements

-- `std::vector` doubles its capacity when it is full (libstdc++).
abbrev pub grow : ℕ → ℕ
grow n = if n == 0 then 1 else 2 * n

unfoldable pub push_back : Probes → ProbeValues → Probes
push_back p v = record {
  elements = p.elements ++ v ∷ [];
  capacity = if size p == p.capacity then grow p.capacity else p.capacity;
}

-- `clear` keeps the capacity
unfoldable pub clear : Probes → Probes
clear p = record p { elements = [] }

abbrev pub same_duration : Duration → Duration → Bool
same_duration (pos a) (pos b) = a == b
same_duration (pos a) (negsuc b) = false
same_duration (negsuc a) (pos b) = false
same_duration (negsuc a) (negsuc b) = a == b

-- two neighbours whose playback durations are known and differ
abbrev pub is_accurate_pair : ProbeValues → ProbeValues → Bool
is_accurate_pair probe1 probe2 =
    not (is_zero probe1.client_duration)
    && not (is_zero probe2.client_duration)
    && not (same_duration probe1.client_duration probe2.client_duration)

abbrev pub accurate_at : List ProbeValues → ℕ → Bool
accurate_at ps i = elim (get_elem? ps (suc i)) [
  | none ↦ false
  | some probe1 ↦ elim (get_elem? ps i) [
    | none ↦ false
    | some probe2 ↦ is_accurate_pair probe1 probe2
  ]
]

-- The loop over `i`, from the capacity down to 2; it runs only where the vector is full.
unfoldable pub accurate_duration_from : List ProbeValues → ℕ → Option ℕ
accurate_duration_from ps zero = none
accurate_duration_from ps (suc zero) = none
accurate_duration_from ps (suc (suc i)) =
    let rest = accurate_duration_from ps (suc i) in if accurate_at ps i then some (suc i) else rest

unfoldable pub get_accurate_duration_index : Probes → Option ℕ
unfolding accurate_duration_from
get_accurate_duration_index p = accurate_duration_from p.elements p.capacity

-- the samples: the first three probes are skipped, and those with no latency
unfoldable pub measured : List ProbeValues → List ProbeValues
measured [] = []
measured (p ∷ ps) = if is_zero p.latency then measured ps else p ∷ measured ps

-- `std::sort` by latency
unfoldable pub insert_probe : ProbeValues → List ProbeValues → List ProbeValues
insert_probe p [] = p ∷ []
insert_probe p (q ∷ qs) = if ltb_ℤ q.latency p.latency then q ∷ insert_probe p qs else p ∷ q ∷ qs

unfoldable pub sort_probes : List ProbeValues → List ProbeValues
unfolding insert_probe
sort_probes [] = []
sort_probes (p ∷ ps) = insert_probe p (sort_probes ps)

abbrev pub sorted_samples : List ProbeValues → List ProbeValues
sorted_samples samples = if leb 3 (length samples) then sort_probes samples else samples

-- the middle sample; with no sample, the probe that `result` starts as
unfoldable pub get_latency_mean_probe : Timestamp → Probes → ProbeValues
unfolding measured sort_probes
get_latency_mean_probe now p =
    let samples = sorted_samples (measured (drop 3 p.elements)) in
    elim (get_elem? samples (length samples / 2)) [ none ↦ blank_probe now | some m ↦ m ]
