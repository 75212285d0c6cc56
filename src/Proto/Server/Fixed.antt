-- ===== src/Proto/Server/Fixed.antt =====
-- src/slim/proto/server/CommandSETD.hpp, CommandAUDE.hpp and CommandAUDG.hpp: commands of one size.
pub mod Gain
use slimstream.Base.{
  ℕ, ◌+◌, ◌*◌, ◌/◌, ◌%◌, ◌^◌, Bool, List, [], ◌∷◌, ◌++◌, Option, none, some, ltb, if◌then◌else◌,
}
use slimstream.Proto.Wire.{Bytes, store16, store32, htons}

pub data DeviceId : Type 0 where
  request_name squeezebox3 : DeviceId

abbrev pub device_code : DeviceId → ℕ
device_code request_name = 0
device_code squeezebox3 = 4

-- `CommandSETD`: the size of its data, the opcode and the device
unfoldable pub setd_bytes : DeviceId → Bytes
unfolding store16 htons
setd_bytes d = store16 (htons 5) ++ b's' ∷ b'e' ∷ b't' ∷ b'd' ∷ device_code d ∷ []

-- `CommandAUDE`
unfoldable pub aude_bytes : Bool → Bool → Bytes
unfolding store16 htons
aude_bytes spdif dac =
    store16 (htons 6)
    ++ b'a' ∷ b'u' ∷ b'd' ∷ b'e' ∷ (if spdif then 1 else 0) ∷ (if dac then 1 else 0) ∷ []

-- `AUDGData` and `AUDG`
pub record Audg : Type 0 where
  pub size : ℕ
  pub opcode : Bytes
  pub old_gain_left : ℕ
  pub old_gain_right : ℕ
  pub adjust : ℕ
  pub preamp : ℕ
  pub gain_left1 : ℕ
  pub gain_left2 : ℕ
  pub gain_right1 : ℕ
  pub gain_right2 : ℕ
  pub sequence_id : ℕ

-- the constructor's bound on a gain, in percent
abbrev pub clamp_gain : ℕ → ℕ
clamp_gain g = if ltb 100 g then 100 else g

-- `htons` takes 16 bits of the scaled gain.
abbrev pub scaled_gain : ℕ → ℕ
scaled_gain g = 65536 * clamp_gain g % 2 ^ 32 / 100

abbrev blank_audg : Audg
blank_audg = record {
  size = 0;
  opcode = b'a' ∷ b'u' ∷ b'd' ∷ b'g' ∷ [];
  old_gain_left = 0;
  old_gain_right = 0;
  adjust = 0;
  preamp = 0;
  gain_left1 = 0;
  gain_left2 = 0;
  gain_right1 = 0;
  gain_right2 = 0;
  sequence_id = 0;
}

unfoldable pub make_audg : Option ℕ → Audg
unfolding htons
make_audg none = record blank_audg { size = htons 24 }
make_audg (some g) = record blank_audg {
  adjust = 1;
  preamp = 255;
  gain_left2 = htons (scaled_gain g % 2 ^ 16);
  gain_right2 = htons (scaled_gain g % 2 ^ 16);
  size = htons 24;
}

unfoldable pub audg_bytes : Audg → Bytes
unfolding store16 store32
audg_bytes a =
    store16 a.size
    ++ a.opcode
    ++ store32 a.old_gain_left
    ++ store32 a.old_gain_right
    ++ (a.adjust ∷ a.preamp ∷ [])
    ++ store16 a.gain_left1
    ++ store16 a.gain_left2
    ++ store16 a.gain_right1
    ++ store16 a.gain_right2
    ++ store16 a.sequence_id
