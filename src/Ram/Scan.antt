-- ===== src/Ram/Scan.antt =====
-- What `dtb_scan` of kernel/dtb.c keeps true of the match that its handler fills.
use craybond_os.Base.{
  ◌⊎◌, ℕ, zero, suc, ◌≡◌, refl, ◌≢◌, Bool, true, false, not, ◌==◌, ◌&&◌, if◌then◌else◌, List, inl,
  inr, arith,
}
use craybond_os.Outcome.{Outcome, Panic, done, panic, out_of_fuel}
use craybond_os.Ram.{DtbMatch, no_match, be32, scan_loop, dtb_scan}

-- A result that has the property, if there is one.
pub data Partly {ℓ κ} {A : Type ℓ} (P : A → Type κ) : Outcome A → Type (ℓ ⊔ κ) where
  returned : {a : A} → P a → Partly P (done a)
  panicked : {m : Panic} {i : ℕ} → Partly P (panic m i)
  unfinished : Partly P out_of_fuel

pub if-both {ℓ κ} :
    {A : Type ℓ} (P : A → Type κ) (b : Bool) {x y : A}
    → (b ≡ true → P x)
    → (b ≡ false → P y)
    → P (if b then x else y)
if-both P true f g = f refl
if-both P false f g = g refl

-- The match keeps the property, and something is found when the answer is yes.
abbrev pub Answer : (DtbMatch → Type 0) → Bool × DtbMatch → Type 0
Answer Keeps r = Keeps r.1 × (r.0 ≡ false ⊎ r.1.found ≢ 0)

module _ (Keeps : DtbMatch → Type 0) (dtb : ℕ) (mem : ℕ → ℕ) (names : ℕ) (search : List ℕ)
    (handler : List ℕ → ℕ → ℕ → DtbMatch → DtbMatch) (empty : Keeps no_match)
    (step : (name : List ℕ) (prop len : ℕ) (m : DtbMatch)
      → Keeps m
      → Keeps (handler name prop len m)) where
  scan_loop-Answer :
      (fuel strings p : ℕ) (active : Bool) (m : DtbMatch)
      → Keeps m
      → Partly (Answer Keeps) (scan_loop dtb mem fuel names strings search handler p active m)
  unfolding scan_loop
  scan_loop-Answer zero strings p active m k = unfinished
  scan_loop-Answer (suc fuel) strings p active m k =
      let Good = Partly (Answer Keeps) in
      if-both Good (be32 mem p == 9) (λ e. returned (k, inl refl))
        (λ e.
          if-both Good (be32 mem p == 1) (λ e. scan_loop-Answer fuel strings _ _ m k)
            (λ e.
              if-both Good (be32 mem p == 3 && active)
                (λ e. scan_loop-Answer fuel strings _ active _ (step _ _ _ m k))
                (λ e.
                  if-both Good (be32 mem p == 2)
                    (λ e.
                      if-both Good (active && not (m.found == 0))
                        (λ e. returned (k, inr (λ q. ground arith)))
                        (λ e. scan_loop-Answer fuel strings _ _ no_match empty))
                    (λ e. scan_loop-Answer fuel strings _ active m k))))

  pub dtb_scan-Answer :
      (hdr fuel : ℕ) (m : DtbMatch)
      → Keeps m
      → Partly (Answer Keeps) (dtb_scan dtb mem hdr fuel names search handler m)
  unfolding dtb_scan
  dtb_scan-Answer hdr fuel m k = scan_loop-Answer fuel _ _ false m k
