-- ===== src/Auth/Users/Strength.antt =====
-- internal/auth/user.go: which passwords are strong enough.
use go_proxy_server.Prelude.{
  ℕ, ◌≤◌, ◌≡◌, refl, ◌↔◌, Bool, true, false, if◌then◌else◌, ◌||◌, ◌&&◌, [], ◌∷◌, Bytes, length, ok,
  arith,
}
use go_proxy_server.Auth.Users.{is_letter, is_digit, scan, validate_password_strength}

abbrev pub any : (ℕ → Bool) → Bytes → Bool
any p [] = false
any p (c ∷ s) = p c || any p s

||-assoc : (a b c : Bool) → ((a || b) || c) ≡ (a || (b || c))
||-assoc true b c = refl
||-assoc false b c = refl

-- The break changes nothing, since both flags are set by then.
break_lem :
    (a b x y : Bool)
    → ◌≡◌ {A = Bool × Bool} (if a && b then (a, b) else (a || x, b || y)) (a || x, b || y)
break_lem true true x y = refl
break_lem true false x y = refl
break_lem false b x y = refl

scan_lem : (hl hd : Bool) (s : Bytes) → scan hl hd s ≡ (hl || any is_letter s, hd || any is_digit s)
unfolding scan
scan_lem true true [] = refl
scan_lem true false [] = refl
scan_lem false true [] = refl
scan_lem false false [] = refl
scan_lem hl hd (c ∷ s) =
    rw
      (
        scan_lem (hl || is_letter c) (hd || is_digit c) s,
        break_lem (hl || is_letter c) (hd || is_digit c) (any is_letter s) (any is_digit s),
        ||-assoc hl (is_letter c) (any is_letter s),
        ||-assoc hd (is_digit c) (any is_digit s),
      )
      refl

-- A password is strong enough exactly if it has 8 to 128 bytes, an ASCII letter and a digit.
pub validate_password_strength_iff :
    (password : Bytes)
    → validate_password_strength password ≡ ok tt
      ↔ (8 ≤ length password)
        × (length password ≤ 128)
        × (any is_letter password ≡ true)
        × (any is_digit password ≡ true)
unfolding validate_password_strength
validate_password_strength_iff password =
    rw (scan_lem false false password, validate_password_strength)
      ((λ e. ground arith), (λ h. ground arith))
