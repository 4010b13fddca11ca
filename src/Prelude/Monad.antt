-- ===== src/Prelude/Monad.antt =====
-- State with loops that take fuel: `none` means that the fuel ran out. `Returns` is total
-- correctness: the run ends, with a result and a state that satisfy the postcondition.
use mathlib.Core.Path.{◌≡◌, refl, sym, ◌∙◌, subst}
use mathlib.Core.Option.{Option, none, some, some-injective}

abbrev pub M : Type 0 → Type 0 → Type 0
M S A = S → Option (A × S)

abbrev pub pure : {S A : Type 0} → A → M S A
pure a s = some (a, s)

infixl 5 ◌>>=◌ ◌>>◌
abbrev pub ◌>>=◌ : {S A B : Type 0} → M S A → (A → M S B) → M S B
◌>>=◌ m f s = elim (m s) [ none ↦ none | some (a, s') ↦ f a s' ]

abbrev pub ◌>>◌ : {S A B : Type 0} → M S A → M S B → M S B
m >> k = m >>= λ _. k

-- The current state, and a new one.
abbrev pub get : {S : Type 0} → M S S
get s = some (s, s)

abbrev pub put : {S : Type 0} → S → M S (Unit {0})
put t s = some (tt, t)

-- A call of the environment, which always returns.
abbrev pub call : {S A : Type 0} → (S → A × S) → M S A
call f s = some ((f s).0, (f s).1)

pub record Returns {S A : Type 0} (r : Option (A × S)) (Q : A → S → Type 0) : Type 0 where
  pub value : A
  pub state : S
  pub runs : r ≡ some (value, state)
  pub holds : Q value state

pub Returns-pure :
    {S A : Type 0} (Q : A → S → Type 0) (a : A) (s : S) → Q a s → Returns (some (a, s)) Q
Returns-pure Q a s h = record { value = a; state = s; runs = refl; holds = h }

pub Returns-bind :
    {S A B : Type 0} (m : M S A) (f : A → M S B) (s : S) (P : A → S → Type 0) (Q : B → S → Type 0)
    → Returns (m s) P
    → ((a : A) (t : S) → P a t → Returns (f a t) Q)
    → Returns ((m >>= f) s) Q
Returns-bind m f s P Q h k =
    let rest = k h.value h.state h.holds in
    record {
      value = rest.value;
      state = rest.state;
      runs = rw (h.runs, ◌>>=◌) rest.runs;
      holds = rest.holds;
    }

pub Returns-mono :
    {S A : Type 0} {r : Option (A × S)} (P Q : A → S → Type 0)
    → ((a : A) (t : S) → P a t → Q a t)
    → Returns r P
    → Returns r Q
Returns-mono P Q f h = record {
  value = h.value;
  state = h.state;
  runs = h.runs;
  holds = f h.value h.state h.holds;
}

-- Two facts about one run.
pub Returns-both :
    {S A : Type 0} {r : Option (A × S)} (P Q : A → S → Type 0)
    → Returns r P
    → Returns r Q
    → Returns r (λ a s. P a s × Q a s)
Returns-both {S} {A} P Q p q = record {
  value = p.value;
  state = p.state;
  runs = p.runs;
  holds = (p.holds, subst same (some-injective _ _ (sym q.runs ∙ p.runs)) q.holds);
}
  where
    same : A × S → Type 0
    same x = Q x.0 x.1

-- What is known of a run, at a known result.
pub Returns_at :
    {S A : Type 0} {r : Option (A × S)} (Q : A → S → Type 0) (a : A) (s : S)
    → Returns r Q
    → r ≡ some (a, s)
    → Q a s
Returns_at {S} {A} Q a s q e = subst same (some-injective _ _ (sym q.runs ∙ e)) q.holds
  where
    same : A × S → Type 0
    same x = Q x.0 x.1

-- Partial correctness: what holds if the run returns.
abbrev pub Ensures : {S A : Type 0} → Option (A × S) → (A → S → Type 0) → Type 0
Ensures {S} {A} r Q = (a : A) (s : S) → r ≡ some (a, s) → Q a s

pub Ensures-pure :
    {S A : Type 0} (Q : A → S → Type 0) (a : A) (s : S) → Q a s → Ensures (some (a, s)) Q
Ensures-pure {S} {A} Q a s h b t e = subst same (some-injective _ _ e) h
  where
    same : A × S → Type 0
    same x = Q x.0 x.1

pub Ensures-none : {S A : Type 0} (Q : A → S → Type 0) → Ensures none Q
Ensures-none Q a s e = absurd (cc e)

pub Ensures-bind :
    {S T A B : Type 0} (r : Option (A × S)) (f : A → S → Option (B × T)) (P : A → S → Type 0)
    (Q : B → T → Type 0)
    → Ensures r P
    → ((a : A) (t : S) → P a t → Ensures (f a t) Q)
    → Ensures (elim r [ none ↦ none | some (a, t) ↦ f a t ]) Q
Ensures-bind none f P Q h k b s e = absurd (cc e)
Ensures-bind (some (a, t)) f P Q h k b s e = k a t (h a t refl) b s e

pub Ensures-mono :
    {S A : Type 0} {r : Option (A × S)} (P Q : A → S → Type 0)
    → ((a : A) (t : S) → P a t → Q a t)
    → Ensures r P
    → Ensures r Q
Ensures-mono P Q f h a s e = f a s (h a s e)

-- A run that returns, and what holds if it does.
pub Returns-Ensures :
    {S A : Type 0} {r : Option (A × S)} (P Q : A → S → Type 0)
    → Returns r P
    → Ensures r Q
    → Returns r (λ a s. P a s × Q a s)
Returns-Ensures P Q p q = record {
  value = p.value;
  state = p.state;
  runs = p.runs;
  holds = (p.holds, q p.value p.state p.runs);
}
