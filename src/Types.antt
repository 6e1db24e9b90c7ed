-- ===== src/Types.antt =====
-- The constants and structures of ax25/types.go, and the sentinel errors of the package.
use go_ax.Base.{Bool, Bytes, List, refl, ℕ, ◌≡◌}

abbrev pub kiss_fend : ℕ
kiss_fend = 0xC0

abbrev pub kiss_fesc : ℕ
kiss_fesc = 0xDB

abbrev pub kiss_tfend : ℕ
kiss_tfend = 0xDC

abbrev pub kiss_tfesc : ℕ
kiss_tfesc = 0xDD

abbrev pub pid_none : ℕ
pid_none = 0xF0

abbrev pub address_len : ℕ
address_len = 7

abbrev pub max_callsign : ℕ
max_callsign = 6

abbrev pub max_digipeaters : ℕ
max_digipeaters = 8

abbrev pub max_info_len : ℕ
max_info_len = 256

abbrev pub ctrl_ui : ℕ
ctrl_ui = 0x03

abbrev pub ctrl_sabm : ℕ
ctrl_sabm = 0x2F

abbrev pub ctrl_disc : ℕ
ctrl_disc = 0x43

abbrev pub ctrl_dm : ℕ
ctrl_dm = 0x0F

abbrev pub ctrl_ua : ℕ
ctrl_ua = 0x63

abbrev pub ctrl_frmr : ℕ
ctrl_frmr = 0x87

abbrev pub ctrl_rr_mask : ℕ
ctrl_rr_mask = 0x01

abbrev pub ctrl_rnr_mask : ℕ
ctrl_rnr_mask = 0x05

abbrev pub ctrl_rej_mask : ℕ
ctrl_rej_mask = 0x09

pub data FrameType : Type 0 where
  frame_ui frame_i frame_s frame_u frame_unknown : FrameType

pub record Address : Type 0 where
  pub callsign : Bytes
  pub ssid : ℕ
  pub has_been_repeated : Bool
  pub is_last : Bool

pub record Frame : Type 0 where
  pub destination : Address
  pub source : Address
  pub digipeaters : List Address
  pub is_command : Bool
  pub frame_type : FrameType
  pub control : ℕ
  pub pid : ℕ
  pub payload : Bytes

pub data Error : Type 0 where
  callsign_too_long callsign_empty ssid_out_of_range invalid_callsign short_address_data : Error
  frame_too_short too_many_digis payload_too_long invalid_address : Error

pub data Result {ℓ} (A : Type ℓ) : Type ℓ where
  err : Error → Result A
  ok : A → Result A

infixl 5 ◌>>=◌
abbrev pub ◌>>=◌ {ℓ κ} : {A : Type ℓ} {B : Type κ} (m : Result A) (next : A → Result B) → Result B
err failure >>= next = err failure
ok value >>= next = next value

-- What a bind that succeeds had to go through.
pub >>=-eq-ok {ℓ κ} :
    {A : Type ℓ} {B : Type κ} (first : Result A) (next : A → Result B) {result : B}
    → (first >>= next) ≡ ok result
    → (between : A) × (first ≡ ok between) × (next between ≡ ok result)
>>=-eq-ok (err failure) next h = cc
>>=-eq-ok (ok between) next h = (between, refl, h)

pub ok-injective {ℓ} : {A : Type ℓ} {a b : A} → ok a ≡ ok b → a ≡ b
ok-injective h = cc
