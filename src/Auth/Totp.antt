-- ===== src/Auth/Totp.antt =====
-- apps/api/src/modules/auth/mfa.service.ts: one-time codes that depend on the time, and recovery codes.
-- A secret is read as base 32, where the accumulator is an integer of 32 bits.
use birthub_360_innovation.Base.{
  ℕ, zero, suc, ◌+◌, ◌-◌, ◌*◌, ◌/◌, ◌%◌, ◌^◌, String, Bool, true, false, ◌&&◌, List, [], ◌∷◌, ◌++◌,
  Option, none, some, ltb, leb, ◌==◌, if◌then◌else◌, get_or, str_eq, str_append, length, get_elem?,
  all, decimal,
}
use birthub_360_innovation.Base.Result.{Result, ok, err, ◌>>=◌}
use birthub_360_innovation.Policy.Pattern.{codes}
use birthub_360_innovation.Auth.{Host, AuthError, counter_out_of_range}

-- `BASE32_ALPHABET.indexOf(char)`, where a character that is not there is passed over.
abbrev pub alphabet_index : ℕ → Option ℕ
alphabet_index c =
    if leb 65 c && leb c 90
    then some (c - 65)
    else if leb 50 c && leb c 55
    then some (c - 50 + 26)
    else none

unfoldable pub read_bytes : List ℕ → ℕ → ℕ → List ℕ
read_bytes [] bits value = []
read_bytes (c ∷ cs) bits value = elim (alphabet_index c) [
  | none ↦ read_bytes cs bits value
  | some index ↦
      let next = (value * 32 + index) % 2 ^ 32 in
      let emitted = (next / 2 ^ (bits + 5 - 8)) % 256 ∷ read_bytes cs (bits + 5 - 8) next in
      let held = read_bytes cs (bits + 5) next in if leb 8 (bits + 5) then emitted else held
]

-- The padding is no character of the alphabet.
unfoldable pub from_base32 : Host → String → List ℕ
from_base32 host secret = read_bytes (codes (host.to_upper_case secret)) 0 0

-- `writeUInt32BE`
abbrev pub bytes_of : ℕ → List ℕ
bytes_of n = n / 2 ^ 24 % 256 ∷ n / 2 ^ 16 % 256 ∷ n / 2 ^ 8 % 256 ∷ n % 256 ∷ []

-- The eight bytes of the counter. `counter & 0xffffffff` is negative where its bit 31 is set, and neither
-- half is written that is out of range.
unfoldable pub counter_buffer : ℕ → Result AuthError (List ℕ)
counter_buffer counter =
    if leb (2 ^ 32) (counter / 2 ^ 32)
    then err counter_out_of_range
    else if leb (2 ^ 31) (counter % 2 ^ 32)
    then err counter_out_of_range
    else ok (bytes_of (counter / 2 ^ 32) ++ bytes_of (counter % 2 ^ 32))

abbrev pub byte_at : List ℕ → ℕ → ℕ
byte_at bytes i = get_or (get_elem? bytes i) 0

-- `otp.toString().padStart(digits, "0")`
unfoldable pub pad_start : ℕ → String → String
pad_start zero text = text
pad_start (suc n) text = str_append "0" (pad_start n text)

unfoldable pub truncated : List ℕ → ℕ
truncated digest =
    let offset = byte_at digest (length digest - 1) % 16 in
    (byte_at digest offset * 2 ^ 24
      + byte_at digest (offset + 1) * 2 ^ 16
      + byte_at digest (offset + 2) * 2 ^ 8
      + byte_at digest (offset + 3))
    % 2 ^ 31

unfoldable pub hotp : Host → String → ℕ → Result AuthError String
hotp host secret counter = counter_buffer counter >>= λ buffer.
    let otp = decimal (truncated (host.hmac_sha1 (from_base32 host secret) buffer) % 10 ^ 6) in
    ok (pad_start (6 - length (codes otp)) otp)

-- `/^\d{6}$/`
abbrev pub is_six_digits : String → Bool
is_six_digits code = length (codes code) == 6 && all (λ c. leb 48 c && leb c 57) (codes code)

-- The loop over the windows, of which the first is `skew` before the counter: a number of them, from the
-- i-th on. A counter below 0 is out of range.
unfoldable pub try_windows : Host → String → String → ℕ → ℕ → ℕ → ℕ → Result AuthError Bool
try_windows host secret code counter skew zero i = ok false
try_windows host secret code counter skew (suc n) i =
    let rest = try_windows host secret code counter skew n (i + 1) in
    if ltb (counter + i) skew
    then err counter_out_of_range
    else hotp host secret (counter + i - skew) >>= λ candidate.
        if str_eq candidate code then ok true else rest

abbrev pub totp_period_seconds : ℕ
totp_period_seconds = 30

unfoldable pub verify_totp_code : Host → ℕ → String → String → ℕ → Result AuthError Bool
verify_totp_code host clock_skew_windows code secret time =
    if is_six_digits code
    then try_windows host secret code (time / 1000 / totp_period_seconds) clock_skew_windows
        (2 * clock_skew_windows + 1) 0
    else ok false

unfoldable pub hash_recovery_code : Host → String → String
hash_recovery_code host code = host.sha256 (str_append "recovery:" code)
