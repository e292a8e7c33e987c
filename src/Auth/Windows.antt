-- ===== src/Auth/Windows.antt =====
-- The window of time in which a one-time code is accepted.
use birthub_360_innovation.Base.{
  ℕ, zero, suc, ◌+◌, ◌-◌, ◌*◌, ◌/◌, ◌≤◌, ◌<◌, String, true, ◌≡◌, inl, inr, arith, ltb, Bool-cases,
  str_eq, eq_iff, ap, ◌∙◌,
}
use birthub_360_innovation.Base.Result.{ok, Result-cases}
use birthub_360_innovation.Auth.{Host}
use birthub_360_innovation.Auth.Totp.{
  hotp, try_windows, verify_totp_code, is_six_digits, totp_period_seconds,
}

module _ (host : Host) (secret code : String) (counter skew : ℕ) where
  try_windows_lem :
      (n i : ℕ)
      → try_windows host secret code counter skew n i ≡ ok true
      → (c : ℕ) × (hotp host secret c ≡ ok code)
        × (counter + i ≤ c + skew)
        × (c + skew < counter + i + n)
  unfolding try_windows
  try_windows_lem zero i e = absurd (cc e)
  try_windows_lem (suc n) i e = elim (Bool-cases (ltb (counter + i) skew)) [
    | inl early ↦ absurd (cc (rw (early, try_windows) at e))
    | inr fine ↦ elim (Result-cases (hotp host secret (counter + i - skew))) [
      | inl (x, bad) ↦ absurd (cc (rw (fine, bad, try_windows) at e))
      | inr (candidate, made) ↦ elim (Bool-cases (str_eq candidate code)) [
        | inl same ↦ (
          counter + i - skew,
          made ∙ ap ok ((eq_iff candidate code).0 same),
          ground (arith, fine),
          ground (arith, fine),
        )
        | inr other ↦
            let (c, fits, low, high) =
              try_windows_lem n (i + 1) (rw (fine, made, other, try_windows) at e) in
            (c, fits, omega (arith, low), omega (arith, high))
      ]
    ]
  ]

-- A one-time code is accepted only if it is the code of a counter that differs from that of the time by no
-- more than the windows that are allowed.
pub verify_totp_code_lem :
    (host : Host) (clock_skew_windows : ℕ) (code secret : String) (time : ℕ)
    → verify_totp_code host clock_skew_windows code secret time ≡ ok true
    → (c : ℕ) × (hotp host secret c ≡ ok code)
      × (time / 1000 / totp_period_seconds ≤ c + clock_skew_windows)
      × (c ≤ time / 1000 / totp_period_seconds + clock_skew_windows)
unfolding verify_totp_code
verify_totp_code_lem host clock_skew_windows code secret time e =
    elim (Bool-cases (is_six_digits code)) [
      | inl digits ↦
          let (c, fits, low, high) =
            try_windows_lem host secret code (time / 1000 / totp_period_seconds) clock_skew_windows
              (2 * clock_skew_windows + 1) 0 (rw (digits, verify_totp_code) at e) in
          (c, fits, omega (arith, low), omega (arith, high))
      | inr other ↦ absurd (cc (rw (other, verify_totp_code) at e))
    ]
