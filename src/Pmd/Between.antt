-- ===== src/Pmd/Between.antt =====
-- destroyAllInternal (pmd/pmdEduMgr.cpp) as a sequence of calls of the manager, with those of the
-- other threads between.
use edbc.Base.{
  ℕ, ◌+◌, ◌%◌, ◌^◌, ◌≡◌, inl, inr, Bool, true, false, List, [], ◌∷◌, ◌==◌, if◌then◌else◌,
  Bool-cases,
}
use mathlib.Core.Path.{subst}
use edbc.Base.Outcome.{Outcome, returns, >>=-eq-returns, Rc}
use edbc.Base.Outcome.Rc.{edb_ok}
use edbc.Pmd.Manager.{EduMgr}
use edbc.Pmd.Service.{EduPrivilege, user, all, get_edu_cnt, force_edus}
use edbc.Pmd.Life.{Reach}
use edbc.Pmd.Life.Step.{stop, end, count, force_all}
use edbc.Pmd.Life.Reach.{next}
use edbc.Pmd.Shutdown.{Others, drain, destroy_all}

-- What the other threads do is calls, too.
abbrev pub Calls : List Others → Type 0
Calls [] = Unit {0}
Calls (others ∷ rounds) = ((m n : EduMgr) → Reach m → others m ≡ returns n → Reach n) × Calls rounds

ended-Reach :
    (m n : EduMgr) (left l : List Others)
    → Reach m
    → Calls l
    → ◌≡◌ {A = Outcome (List Others × EduMgr)} (returns (l, m)) (returns (left, n))
    → Reach n × Calls left
ended-Reach m n left l r c e =
    let at : m ≡ n = cc in let of : l ≡ left = cc in (subst Reach at r, subst Calls of c)

maybe_forced-Reach :
    (b : Bool) (prop : EduPrivilege) (m : EduMgr) (x : Rc × EduMgr)
    → Reach m
    → (if b then force_edus prop m else returns (edb_ok, m)) ≡ returns x
    → Reach (x.1)
maybe_forced-Reach true prop m (rc, n) r e = next r (force_all prop rc e)
maybe_forced-Reach false prop m (rc, n) r e = let at : m ≡ n = cc in subst Reach at r

drain-Reach :
    (prop : EduPrivilege) (timer_cnt : ℕ) (rounds : List Others) (m n : EduMgr) (left : List Others)
    → Reach m
    → Calls rounds
    → drain prop timer_cnt rounds m ≡ returns (left, n)
    → Reach n × Calls left
unfolding drain
drain-Reach prop timer_cnt [] m n left r c e =
    let ((total, m₁), ran, rest) = >>=-eq-returns (get_edu_cnt prop m) _ e in
    let r₁ = next r (count prop total ran) in
    elim (Bool-cases (total == 0)) [
      | inl t ↦ ended-Reach m₁ n left [] r₁ c (rw t at rest)
      | inr t ↦ let no = (rw t at rest) in cc
    ]
drain-Reach prop timer_cnt (others ∷ rounds) m n left r (calls, c) e =
    let ((total, m₁), ran, rest) = >>=-eq-returns (get_edu_cnt prop m) _ e in
    let r₁ = next r (count prop total ran) in
    elim (Bool-cases (total == 0)) [
      | inl t ↦ ended-Reach m₁ n left (others ∷ rounds) r₁ (calls, c) (rw t at rest)
      | inr t ↦
          let (x, forced, rest') = >>=-eq-returns _ _ (rw t at rest) in
          let r₂ = maybe_forced-Reach (timer_cnt % 50 == 0) prop m₁ x r₁ forced in
          let (m₃, went, rest'') = >>=-eq-returns (others (x.1)) _ rest' in
          drain-Reach prop ((timer_cnt + 1) % 2 ^ 32) rounds m₃ n left (calls (x.1) m₃ r₂ went) c
            rest''
    ]

-- destroyAllInternal, where it returns, leaves the manager at a point of its life.
pub destroy_all-Reach :
    (rounds : List Others) (m n : EduMgr) (rc : Rc)
    → Reach m
    → Calls rounds
    → destroy_all rounds m ≡ returns (rc, n)
    → Reach n
unfolding destroy_all
destroy_all-Reach rounds m n rc r c e =
    let ((left, m₁), first, rest) = >>=-eq-returns _ _ e in
    let (r₁, c₁) =
      drain-Reach user 0 rounds _ m₁ left (next (next r (end true)) (stop true)) c first in
    let ((left', m₂), second, last) = >>=-eq-returns _ _ rest in
    let (r₂, _) = drain-Reach all 0 left m₁ m₂ left' r₁ c₁ second in
    let at : m₂ ≡ n = cc in subst Reach at r₂
