-- ===== src/Bundles/Match.antt =====
-- What the comparison of action keys in internal/roomctl/validate.go accepts and reports.
use mathlib.Core.Bool.{◌&&◌, ◌||◌, not}
use sys_escape.Prelude.{
  ◌≡◌, ◌↔◌, ◌⊎◌, refl, sym, ap, ◌∙◌, Bool, true, false, List, [], ◌∷◌, ◌++◌, String, map, ok, err,
  arith, inl, inr,
}
use sys_escape.Prelude.Text.{str_eq, eq_iff, eq_refl, is_blank, trim_space}
use sys_escape.Prelude.Assoc.{contains}
use sys_escape.Prelude.Sort.{sort_strings, contains-sort_strings}
use sys_escape.Bundles.Loader.{BundleAction}
use sys_escape.Bundles.Check.{
  key_mismatch, key_set, missing_from, validate_action_simulation_key_match,
}

-- Some key of a list is the given one but for space around it.
unfoldable pub mentions : String → List String → Bool
mentions key [] = false
mentions key (k ∷ ks) = not (is_blank k) && str_eq (trim_space k) key || mentions key ks

contains-key_set :
    (key : String) (keys : List String) → contains key (key_set keys) ≡ mentions key keys
unfolding key_set mentions
contains-key_set key [] = refl
contains-key_set key (k ∷ ks) = ground (arith, contains-key_set key ks, eq_iff (trim_space k) key)

contains-missing_from :
    (key : String) (others keys : List String)
    → contains key (missing_from others keys) ≡ (contains key keys && not (contains key others))
unfolding missing_from
contains-missing_from key others [] = refl
contains-missing_from key others (k ∷ ks) =
    ground (arith, contains-missing_from key others ks, eq_iff k key, ap (λ x. contains x others))

contains_empty : (keys : List String) → ((key : String) → contains key keys ≡ false) → keys ≡ []
contains_empty [] h = refl
contains_empty (k ∷ ks) h = absurd (ground (arith, h k, eq_refl k))

append_empty : {A : Type 0} (xs ys : List A) → xs ++ ys ≡ [] → (xs ≡ []) × (ys ≡ [])
append_empty [] ys h = (refl, h)
append_empty (x ∷ xs) ys h = absurd (ground (arith, h))

and_not : (b : Bool) → (b && not b) ≡ false
and_not true = refl
and_not false = refl

abbrev pub keys_of : List BundleAction → List String
keys_of actions = map (λ (a : BundleAction). a.key) actions

-- The two lists of an error.
abbrev lacking : List String → List String → List String
lacking others keys = missing_from (key_set others) (key_set keys)

contains-lacking :
    (key : String) (others keys : List String)
    → contains key (lacking others keys) ≡ (mentions key keys && not (mentions key others))
contains-lacking key others keys =
    contains-missing_from key (key_set others) (key_set keys)
    ∙ rw (contains-key_set key keys, contains-key_set key others) refl

list-cases : (xs : List String) → (xs ≡ []) ⊎ ((x : String) × (ys : List String) × (xs ≡ x ∷ ys))
list-cases [] = inl refl
list-cases (x ∷ ys) = inr (x, ys, refl)

validate_match-empty :
    (actions : List BundleAction) (effects : List String)
    → lacking effects (keys_of actions) ++ lacking (keys_of actions) effects ≡ []
    → validate_action_simulation_key_match actions effects ≡ ok tt
unfolding validate_action_simulation_key_match
validate_match-empty actions effects h = rw (validate_action_simulation_key_match, h) refl

validate_match-filled :
    (actions : List BundleAction) (effects : List String) (x : String) (rest : List String)
    → lacking effects (keys_of actions) ++ lacking (keys_of actions) effects ≡ x ∷ rest
    → validate_action_simulation_key_match actions effects
      ≡ err (
          key_mismatch
            (sort_strings (lacking effects (keys_of actions)))
            (sort_strings (lacking (keys_of actions) effects)))
unfolding validate_action_simulation_key_match
validate_match-filled actions effects x rest h = rw (validate_action_simulation_key_match, h) refl

validate_match-ok :
    (actions : List BundleAction) (effects : List String)
    → validate_action_simulation_key_match actions effects ≡ ok tt
    → lacking effects (keys_of actions) ++ lacking (keys_of actions) effects ≡ []
validate_match-ok actions effects h =
    elim (list-cases (lacking effects (keys_of actions) ++ lacking (keys_of actions) effects)) [
      | inl e ↦ e
      | inr (x, rest, e) ↦
          absurd (ground (arith, h, validate_match-filled actions effects x rest e))
    ]

-- The comparison passes exactly when the actions and the simulation name the same keys, blank ones and
-- the space around a key aside.
pub validate_action_simulation_key_match_iff :
    (actions : List BundleAction) (effects : List String)
    → (validate_action_simulation_key_match actions effects ≡ ok tt)
      ↔ ((key : String) → mentions key (keys_of actions) ≡ mentions key effects)
validate_action_simulation_key_match_iff actions effects = (
  λ h key.
      let empty =
        append_empty (lacking effects (keys_of actions)) (lacking (keys_of actions) effects)
          (validate_match-ok actions effects h) in
      let left = sym (contains-lacking key effects (keys_of actions)) ∙ ap (contains key) empty.0 in
      let right =
        sym (contains-lacking key (keys_of actions) effects) ∙ ap (contains key) empty.1 in
      ground (arith, left, right),
  λ same.
      let left = contains_empty (lacking effects (keys_of actions)) (λ key.
        contains-lacking key effects (keys_of actions)
        ∙ rw (same key) (and_not (mentions key effects))) in
      let right = contains_empty (lacking (keys_of actions) effects) (λ key.
        contains-lacking key (keys_of actions) effects
        ∙ rw (same key) (and_not (mentions key effects))) in
      validate_match-empty actions effects (rw (left, right) refl),
)

-- The error lists, for each side, exactly the keys that only the other side has.
pub key_mismatch-lists :
    (actions : List BundleAction) (effects xs ys : List String) (key : String)
    → validate_action_simulation_key_match actions effects ≡ err (key_mismatch xs ys)
    → (contains key xs ≡ (mentions key (keys_of actions) && not (mentions key effects)))
      × (contains key ys ≡ (mentions key effects && not (mentions key (keys_of actions))))
key_mismatch-lists actions effects xs ys key h =
    elim (list-cases (lacking effects (keys_of actions) ++ lacking (keys_of actions) effects)) [
      | inl e ↦ absurd (ground (arith, h, validate_match-empty actions effects e))
      | inr (x, rest, e) ↦
          let made = validate_match-filled actions effects x rest e in
          let is_xs : xs ≡ sort_strings (lacking effects (keys_of actions)) =
            ground (arith, h, made) in
          let is_ys : ys ≡ sort_strings (lacking (keys_of actions) effects) =
            ground (arith, h, made) in
          rw (is_xs, is_ys)
            (
              contains-sort_strings key (lacking effects (keys_of actions))
                  ∙ contains-lacking key effects (keys_of actions),
              contains-sort_strings key (lacking (keys_of actions) effects)
                  ∙ contains-lacking key (keys_of actions) effects,
            )
    ]
