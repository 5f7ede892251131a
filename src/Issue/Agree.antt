-- ===== src/Issue/Agree.antt =====
-- Programs whose successful runs give the same result, built from calls that are so.
use hybrid_pqc_cert.Prelude.{
  ◌≡◌, refl, sym, ◌∙◌, Option, arith, Prog, ◌>>=◌, ◌>>◌, pure, from_option, CanReturn,
  >>=-CanReturn, pure-CanReturn,
}
use mathlib.Core.Path.{subst}

-- Every two runs that succeed give the same.
pub record AgreeOnSuccess {W A : Type 0} (m : Prog W A) : Type 0 where
  pub agrees : (a b : A) → CanReturn m a → CanReturn m b → a ≡ b

module _ {W : Type 0} where
  pub agree_>>= :
      {A B : Type 0} {m : Prog W A} {f : A → Prog W B}
      → AgreeOnSuccess m
      → ((a : A) → AgreeOnSuccess (f a))
      → AgreeOnSuccess (m >>= f)
  agree_>>= {A} {B} {m} {f} k l = record {
    agrees = λ b b' h h'.
        let (a, first, rest) = >>=-CanReturn m f h in
        let (a', first', rest') = >>=-CanReturn m f h' in
        let same : a' ≡ a = k.agrees a' a first' first in
        (l a).agrees b b' rest (subst (λ x. CanReturn (f x) b') same rest');
  }

  -- A call that is made for its success only.
  pub agree_unit : {m : Prog W (Unit {0})} → AgreeOnSuccess m
  agree_unit = record { agrees = λ a b h h'. refl }

  pub agree_>> :
      {B : Type 0} {m : Prog W (Unit {0})} {k : Prog W B}
      → AgreeOnSuccess m
      → AgreeOnSuccess k
      → AgreeOnSuccess (m >> k)
  agree_>> h l = agree_>>= h (λ _. l)

  pub agree_pure : {A : Type 0} {a : A} → AgreeOnSuccess (pure {W = W} a)
  agree_pure {A} {a} = record {
    agrees = λ b b' h h'. sym (pure-CanReturn a h) ∙ pure-CanReturn a h';
  }

  pub agree_from_option : {A : Type 0} {o : Option A} → AgreeOnSuccess (from_option {W = W} o)
  agree_from_option {A} {o} = record { agrees = λ b b' (w, h) (w', h'). ground arith }

pub ruleset agreeing = (agree_>>=, agree_>>, agree_unit, agree_pure, agree_from_option)
