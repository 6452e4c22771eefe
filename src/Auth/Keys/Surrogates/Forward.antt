-- ===== src/Auth/Keys/Surrogates/Forward.antt =====
-- The scanner without its look back: one flag tells an escaped byte.
use miakapp_server.Auth.Keys.Surrogates.{round, is_odd, backslash, scan, run_of_backslashes}
use miakapp_server.Prelude.{
  ℕ, zero, suc, ◌≡◌, refl, inl, inr, Bool, true, false, not, ◌&&◌, none, some, [], ◌∷◌, arith,
  nat_beq, Option-cases, nat_eq,
}
use miakapp_server.Text.{Text}

-- The same loop, with a flag in place of the count of the backslashes before the cursor.
unfoldable pub scan_forward : Bool → ℕ → Bool → Text → Bool
scan_forward escaped skip in_string [] = true
scan_forward escaped (suc skip) in_string (c ∷ rest) =
    scan_forward (nat_beq c backslash && not escaped) skip in_string rest
scan_forward escaped zero in_string (c ∷ rest) = elim (round escaped in_string c rest) [
  | none ↦ false
  | some (skip, inside) ↦ scan_forward (nat_beq c backslash && not escaped) skip inside rest
]

odd-run :
    (c : ℕ) (before : Text)
    → is_odd (run_of_backslashes (c ∷ before))
      ≡ (nat_beq c backslash && not (is_odd (run_of_backslashes before)))
unfolding run_of_backslashes
odd-run c before = ground arith

pub scan-eq-scan_forward :
    (rest before : Text) (skip : ℕ) (in_string : Bool)
    → scan before skip in_string rest
      ≡ scan_forward (is_odd (run_of_backslashes before)) skip in_string rest
unfolding scan scan_forward
scan-eq-scan_forward [] before skip s = refl
scan-eq-scan_forward (c ∷ rest) before (suc skip) s =
    ground (arith, scan-eq-scan_forward rest (c ∷ before) skip s, odd-run c before)
scan-eq-scan_forward (c ∷ rest) before zero s =
    elim (Option-cases (round (is_odd (run_of_backslashes before)) s c rest)) [
      | inl e ↦ ground (arith, e)
      | inr ((skip, inside), e) ↦
          ground (arith, e, scan-eq-scan_forward rest (c ∷ before) skip inside, odd-run c before)
    ]
