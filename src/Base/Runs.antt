-- ===== src/Base/Runs.antt =====
-- Runs that act before they return: the actions in their order, and what the run comes to.
pub mod History
use mathlib.Core.Path.{◌≡◌, refl}
use mathlib.Core.Option.{Option, none, some}
use mathlib.Core.List.{List, [], ◌∷◌, ◌++◌}
use ethereum_testnet_bootstr.Base.Lists.{All}
use ethereum_testnet_bootstr.Base.Exceptions.{Error, Result, ok, err}

-- `unfinished` is a loop that the given number of rounds does not end.
pub data Ending (A : Type 0) : Type 0 where
  returned : A → Ending A
  raised : Error → Ending A
  unfinished : Ending A

abbrev pub Run : Type 0 → Type 0 → Type 0
Run E A = List E × Ending A

module _ {E : Type 0} where
  abbrev pub behind : {A : Type 0} → List E → Run E A → Run E A
  behind es (fs, ending) = (es ++ fs, ending)

  infixl 5 ◌>>=◌ ◌>>◌
  unfoldable pub ◌>>=◌ : {A B : Type 0} → Run E A → (A → Run E B) → Run E B
  (es, returned a) >>= next = behind es (next a)
  (es, raised x) >>= next = (es, raised x)
  (es, unfinished) >>= next = (es, unfinished)

  abbrev pub ◌>>◌ : {B : Type 0} → Run E (Unit {0}) → Run E B → Run E B
  run >> next = run >>= λ _. next

  unfoldable pub act : E → Run E (Unit {0})
  act e = (e ∷ [], returned tt)

  unfoldable pub return : {A : Type 0} → A → Run E A
  return a = ([], returned a)

  unfoldable pub call : {A : Type 0} → Result A → Run E A
  call (ok a) = ([], returned a)
  call (err x) = ([], raised x)

  unfoldable pub in_time : {A : Type 0} → Option A → Run E A
  in_time none = ([], unfinished)
  in_time (some a) = ([], returned a)

  -- Each action meets the first predicate, and the value that is returned the second.
  abbrev pub Keeps : {A : Type 0} → (E → Type 0) → (A → Type 0) → Run E A → Type 0
  Keeps P Q (es, returned a) = All P es × Q a
  Keeps P Q (es, raised _) = All P es
  Keeps P Q (es, unfinished) = All P es

  module _ (P : E → Type 0) where
    pub All-append : (es fs : List E) → All P es → All P fs → All P (es ++ fs)
    All-append [] fs a b = b
    All-append (e ∷ es) fs a b = (a.0, All-append es fs a.1 b)

    Keeps-behind :
        {A : Type 0} (Q : A → Type 0) (es : List E) (run : Run E A)
        → All P es
        → Keeps P Q run
        → Keeps P Q (behind es run)
    Keeps-behind Q es (fs, returned a) h k = (All-append es fs h k.0, k.1)
    Keeps-behind Q es (fs, raised x) h k = All-append es fs h k
    Keeps-behind Q es (fs, unfinished) h k = All-append es fs h k

    -- A predicate on actions is kept by a chain whose calls keep it.
    pub Keeps-bind :
        {A B : Type 0} (Q : A → Type 0) (S : B → Type 0) (run : Run E A) (next : A → Run E B)
        → Keeps P Q run
        → ((a : A) → Q a → Keeps P S (next a))
        → Keeps P S (run >>= next)
    unfolding ◌>>=◌
    Keeps-bind Q S (es, returned a) next k n = Keeps-behind S es (next a) k.0 (n a k.1)
    Keeps-bind Q S (es, raised x) next k n = k
    Keeps-bind Q S (es, unfinished) next k n = k

    pub Keeps-act :
        {A : Type 0} (S : A → Type 0) (e : E) (next : Run E A)
        → P e
        → Keeps P S next
        → Keeps P S (act e >> next)
    unfolding ◌>>=◌ act
    Keeps-act S e next p k = Keeps-behind S (e ∷ []) next (p, tt) k

    pub Keeps-last : (S : Unit {0} → Type 0) (e : E) → P e → S tt → Keeps P S (act e)
    unfolding act
    Keeps-last S e p s = ((p, tt), s)

    pub Keeps-return : {A : Type 0} (S : A → Type 0) (a : A) → S a → Keeps P S (return a)
    unfolding return
    Keeps-return S a s = (tt, s)

    pub Keeps-call :
        {A B : Type 0} (S : B → Type 0) (result : Result A) (next : A → Run E B)
        → ((a : A) → Keeps P S (next a))
        → Keeps P S (call result >>= next)
    unfolding ◌>>=◌ call
    Keeps-call S (ok a) next n = Keeps-behind S [] (next a) tt (n a)
    Keeps-call S (err x) next n = tt

    -- A call that raises ends the run.
    pub Keeps-raise :
        {A B : Type 0} (S : B → Type 0) (result : Result A) (next : A → Run E B) {x : Error}
        → result ≡ err x
        → Keeps P S (call result >>= next)
    unfolding ◌>>=◌ call
    Keeps-raise S (ok a) next e = cc
    Keeps-raise S (err x) next e = tt

    pub Keeps-in_time :
        {A B : Type 0} (S : B → Type 0) (value : Option A) (next : A → Run E B)
        → ((a : A) → value ≡ some a → Keeps P S (next a))
        → Keeps P S (in_time value >>= next)
    unfolding ◌>>=◌ in_time
    Keeps-in_time S none next n = tt
    Keeps-in_time S (some a) next n = Keeps-behind S [] (next a) tt (n a refl)

  -- The actions of a chain whose first call returns.
  pub bind-returned :
      {A B : Type 0} (run : Run E A) (next : A → Run E B) {es fs : List E} {a : A}
      {ending : Ending B}
      → run ≡ (es, returned a)
      → next a ≡ (fs, ending)
      → (run >>= next) ≡ (es ++ fs, ending)
  unfolding ◌>>=◌
  bind-returned run next first second = rw first (rw second)

  -- A call that returns and does nothing is passed over.
  pub call-bind :
      {A B : Type 0} {result : Result A} {a : A} (next : A → Run E B)
      → result ≡ ok a
      → (call result >>= next) ≡ next a
  unfolding ◌>>=◌ call
  call-bind next e = rw e refl

  pub in_time-bind :
      {A B : Type 0} {value : Option A} {a : A} (next : A → Run E B)
      → value ≡ some a
      → (in_time value >>= next) ≡ next a
  unfolding ◌>>=◌ in_time
  in_time-bind next e = rw e refl
