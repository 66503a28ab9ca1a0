-- ===== src/Prelude/Outcome.antt =====
-- Stateful kernel code: a run over a state that ends, faults, or is still in a loop.

-- `page_fault` is an access through a null pointer: `page_fault_handler` denies the first page.
-- `looping` is a loop that has not ended within its fuel.
pub data Outcome (S A : Type 0) : Type 0 where
  done : A → S → Outcome S A
  page_fault : Outcome S A
  looping : Outcome S A

abbrev pub M : Type 0 → Type 0 → Type 0
M S A = S → Outcome S A

abbrev pub pure : {S A : Type 0} → A → M S A
pure a s = done a s

abbrev pub and_then : {S A B : Type 0} → Outcome S A → (A → M S B) → Outcome S B
and_then (done a s) k = k a s
and_then page_fault k = page_fault
and_then looping k = looping

infixl 5 ◌>>=◌ ◌>>◌
abbrev pub ◌>>=◌ : {S A B : Type 0} → M S A → (A → M S B) → M S B
◌>>=◌ m k s = and_then (m s) k

abbrev pub ◌>>◌ : {S A B : Type 0} → M S A → M S B → M S B
◌>>◌ m k s = and_then (m s) (λ _. k)

abbrev pub get : {S : Type 0} → M S S
get s = done s s

abbrev pub modify : {S : Type 0} → (S → S) → M S (Unit {0})
modify f s = done tt (f s)
