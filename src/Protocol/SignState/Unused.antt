-- ===== src/Protocol/SignState/Unused.antt =====
-- remove_unused_signatures of sign_state.cpp, and which signatures stay.
use xgt.Base.{
  ℕ, ◌≡◌, refl, sym, ◌∙◌, Bool, true, false, not, Option, none, some, List, [], ◌∷◌, Map, find,
  find-erase, erase, has_id, Distinct, arith, if◌then◌else◌,
}
use xgt.Protocol.SignState.{SignState, unused_keys, erase_all, remove_unused_signatures, is_empty}

-- The entry of a used signature.
abbrev pub used_only : Option Bool → Option Bool
used_only (some true) = some true
used_only other = none

abbrev pub is_unused : Option Bool → Bool
is_unused (some false) = true
is_unused other = false

find-erase_all :
    (k : ℕ) (ks : List ℕ) (m : Map Bool)
    → find k (erase_all ks m) ≡ (if has_id k ks then none else find k m)
find-erase_all k [] m = refl
find-erase_all k (j ∷ ks) m = ground (arith, find-erase_all k ks (erase j m), find-erase k j m)

has_id-unused_keys :
    (k : ℕ) (m : Map Bool) → Distinct m → has_id k (unused_keys m) ≡ is_unused (find k m)
unfolding find
has_id-unused_keys k [] d = refl
has_id-unused_keys k ((j, true) ∷ m) d = ground (arith, has_id-unused_keys k m)
has_id-unused_keys k ((j, false) ∷ m) d = ground (arith, has_id-unused_keys k m)

nothing_there : (k : ℕ) (ks : List ℕ) → not (is_empty ks) ≡ false → has_id k ks ≡ false
nothing_there k [] h = refl
nothing_there k (j ∷ ks) h = absurd (ground arith)

-- Where no key stands twice: what stays are the used signatures, and the answer says whether any
-- went.
pub remove_unused_signatures-Used :
    (s : SignState)
    → Distinct s.provided_signatures
    → ((k : ℕ)
        → find k (remove_unused_signatures s).1.provided_signatures
          ≡ used_only (find k s.provided_signatures))
      × ((remove_unused_signatures s).0 ≡ false
          → (k : ℕ) → is_unused (find k s.provided_signatures) ≡ false)
unfolding remove_unused_signatures
remove_unused_signatures-Used s d = (
  λ k.
      let e = find-erase_all k (unused_keys s.provided_signatures) s.provided_signatures in
      let f = has_id-unused_keys k s.provided_signatures d in ground arith,
  λ h k.
      let f = has_id-unused_keys k s.provided_signatures d in
      sym f ∙ nothing_there k (unused_keys s.provided_signatures) h,
)
