-- ===== src/Store/Action.antt =====
-- An `async` method of a store or of the server on the state that it shares with the others.
use scpy.Store.Types.{Result, ok, err}

-- An action on a state that may fail; what it did before it failed stays.
abbrev pub Action : Type 0 → Type 0 → Type 0
Action A X = A → A × Result X

abbrev pub then_do : {A X Y : Type 0} → A × Result X → (X → Action A Y) → A × Result Y
then_do (a, ok x) f = f x a
then_do (a, err e) f = (a, err e)

infixl 5 ◌>>=◌
abbrev pub ◌>>=◌ : {A X Y : Type 0} → Action A X → (X → Action A Y) → Action A Y
◌>>=◌ m f a = then_do (m a) f

abbrev pub return : {A X : Type 0} → X → Action A X
return x a = (a, ok x)
