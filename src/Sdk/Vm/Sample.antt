-- ===== src/Sdk/Vm/Sample.antt =====
-- A host for runs: its numbers are natural numbers, and it has no objects.
use douyin_live.Prelude.{ℕ, ◌+◌, ◌*◌, Bool, false, [], ◌∷◌, none, some, ◌==◌}
use douyin_live.Prelude.Int.{ℤ, pos, negsuc}
use douyin_live.Sdk.Text.{codes}
use douyin_live.Sdk.Vm.Decode.{Binary, add, mul, loose_eq}
use douyin_live.Sdk.Vm.Machine.{
  Value, undefined, num, text, bool, object, Store, Outcome, done, thrown, Host,
}

abbrev natural : ℤ → ℕ
natural (pos n) = n
natural (negsuc n) = 0

abbrev same_value : Value ℕ → Value ℕ → Bool
same_value (num a) (num b) = a == b
same_value _ _ = false

-- What is not a sum, a product or a comparison of numbers throws.
abbrev calculate : Binary → Value ℕ → Value ℕ → Store ℕ (Unit {0}) → Outcome ℕ (Unit {0})
calculate add (num a) (num b) store = done (num (a + b)) store
calculate mul (num a) (num b) store = done (num (a * b)) store
calculate loose_eq a b store = done (bool (same_value a b)) store
calculate _ a b store = thrown (text (codes "TypeError")) store

abbrev refuse : Store ℕ (Unit {0}) → Outcome ℕ (Unit {0})
refuse store = thrown (text (codes "TypeError")) store

abbrev pub calculator : Host ℕ (Unit {0})
calculator = record {
  of_int = natural;
  of_text = λ t. 0;
  index = λ n. some n;
  is_zero_or_nan = λ n. n == 0;
  same = same_value;
  binary = calculate;
  negate = λ v. refuse;
  type_of = λ v. codes "number";
  get = λ o k. refuse;
  put = λ o k v. refuse;
  increment = λ o k. refuse;
  to_numeric = λ v store. done v store;
  add_one = λ v. elim v [ num n ↦ num (n + 1) | other ↦ other ];
  remove = λ o k. refuse;
  new_array = λ items store. (object 0, store);
  new_object = λ store. (object 1, store);
  apply = λ f this args. refuse;
  bind = λ f args. refuse;
  construct = λ f. refuse;
  type_error = λ store. (text (codes "TypeError"), store);
  global = undefined;
}

-- One scope, of the variables of the program that is run.
abbrev pub one_scope : Store ℕ (Unit {0})
one_scope = record { scopes = record { slots = []; parent = none } ∷ []; closures = []; world = tt }
