-- ===== src/Config/Indexed/Laws.antt =====
-- Two indices never name one variable, and an environment holds finitely many of them.
use mathlib.Core.List.{append_cancel_left, append_cancel_right}
use docker_vm_runner.Base.{
  ℕ, zero, suc, ◌+◌, ◌≤◌, ◌<◌, Text, before, has_char, length, keys, lookup, true, contains,
  text_eq, nat_eq, list_beq_iff, none, some, List, [], ◌∷◌, ◌++◌, ◌≡◌, refl, sym, ap, ◌∙◌, ◌≢◌, inl,
  inr, arith, Bool-cases, show_nat, show_nat_inj, parse_int, parse_int-show_nat, ◌==◌,
  if◌then◌else◌,
}
use docker_vm_runner.Utils.Env.{Env, get_env}
use docker_vm_runner.Config.Indexed.{behind, indexed_name}

before-behind : (d : ℕ) (s : Text) → has_char d s ≡ true → before d s ++ (d ∷ behind d s) ≡ s
unfolding before behind has_char
before-behind d [] h = cc
before-behind d (c ∷ s) h = elim (Bool-cases (c == d)) [
  | inl e ↦ rw e (ground arith)
  | inr e ↦ rw e (ap (λ t. c ∷ t) (before-behind d s (ground arith)))
]

parse_int_nil : parse_int [] ≡ none
unfolding parse_int
parse_int_nil = refl

pub show_nat-ne-nil : (n : ℕ) → show_nat n ≢ []
show_nat-ne-nil n e = cc (parse_int-show_nat n, ap parse_int e, parse_int_nil)

module _ (name : Text) where
  indexed_name-later :
      (i : ℕ)
      → i ≢ 1
      → indexed_name name i ≡ before b'_' name ++ (show_nat i ++ (b'_' ∷ behind b'_' name))
  unfolding indexed_name
  indexed_name-later i h = ground arith

  later_inj : (i j : ℕ) → i ≢ 1 → j ≢ 1 → indexed_name name i ≡ indexed_name name j → i ≡ j
  later_inj i j h k e = show_nat_inj i j (
      append_cancel_right _ _ _ (
        append_cancel_left (before b'_' name) _ _
          (sym (indexed_name-later i h) ∙ e ∙ indexed_name-later j k)))

  first_ne_later :
      has_char b'_' name ≡ true → (j : ℕ) → j ≢ 1 → indexed_name name 1 ≢ indexed_name name j
  unfolding indexed_name
  first_ne_later u j k e = show_nat-ne-nil j (
      sym (
        append_cancel_right [] _ _ (
          append_cancel_left (before b'_' name) _ _
            (before-behind b'_' name u ∙ e ∙ indexed_name-later j k))))

  -- For a name with an underscore, two indices that give one variable are the same.
  pub indexed_name-inj :
      has_char b'_' name ≡ true → (i j : ℕ) → indexed_name name i ≡ indexed_name name j → i ≡ j
  indexed_name-inj u i j e = elim (Bool-cases (i == 1)) [
    | inl p ↦ elim (Bool-cases (j == 1)) [
      | inl q ↦ ground arith
      | inr q ↦
          absurd (first_ne_later u j (ground arith) (ap (indexed_name name) (ground arith) ∙ e))
    ]
    | inr p ↦ elim (Bool-cases (j == 1)) [
      | inl q ↦
          absurd (first_ne_later u i (ground arith) (ap (indexed_name name) (ground arith) ∙ sym e))
      | inr q ↦ later_inj i j (ground arith) (ground arith) e
    ]
  ]

-- Without the first occurrence of a key.
unfoldable pub remove : Text → List Text → List Text
remove k [] = []
remove k (j ∷ js) = if k == j then js else j ∷ remove k js

pub length-remove :
    (k : Text) (ks : List Text) → contains ks k ≡ true → suc (length (remove k ks)) ≡ length ks
unfolding remove contains
length-remove k [] h = cc
length-remove k (j ∷ js) h = ground (arith, length-remove k js)

pub contains-remove :
    (k j : Text) (ks : List Text) → contains ks j ≡ true → j ≢ k → contains (remove k ks) j ≡ true
unfolding remove contains
contains-remove k j [] h n = cc
contains-remove k j (i ∷ is) h n =
    ground (arith, contains-remove k j is, list_beq_iff k i, list_beq_iff j i)

contains-keys : (env : Env) (k v : Text) → lookup k env ≡ some v → contains (keys env) k ≡ true
unfolding lookup contains
contains-keys [] k v e = cc
contains-keys ((j, w) ∷ env) k v e =
    ground (arith, contains-keys env k v, list_beq_iff j k, list_beq_iff k j)

pub length-keys : (env : Env) → length (keys env) ≡ length env
length-keys [] = refl
length-keys ((k, v) ∷ env) = ap suc (length-keys env)

pub get_env-contains :
    (env : Env) (k : Text) {v : Text} → get_env env k ≡ some v → contains (keys env) k ≡ true
unfolding get_env
get_env-contains env k {v} e = contains-keys env k v e

module _ (name : Text) (u : has_char b'_' name ≡ true) where
  distinct_names :
      (n i : ℕ) (ks : List Text)
      → ((j : ℕ) → i ≤ j → j < i + n → contains ks (indexed_name name j) ≡ true)
      → n ≤ length ks
  distinct_names zero i ks h = omega arith
  distinct_names (suc n) i ks h =
      let rest = distinct_names n (i + 1) (remove (indexed_name name i) ks) (λ j p q.
        contains-remove _ _ ks (h j (omega arith) (omega arith))
          (λ e. let same : j ≡ i = indexed_name-inj name u j i e in omega arith)) in
      omega (arith, length-remove (indexed_name name i) ks (h i (omega arith) (omega arith)))

  -- As many variables as there are indices in a row that are set.
  pub indices-le-length :
      (env : Env) (n i : ℕ)
      → ((j : ℕ) → i ≤ j → j < i + n → contains (keys env) (indexed_name name j) ≡ true)
      → n ≤ length env
  indices-le-length env n i h = omega (arith, distinct_names n i (keys env) h, length-keys env)
