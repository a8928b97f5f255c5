-- ===== src/Context/Aliases.antt =====
-- Data written under aliases and read back (`toAliasedData` and `fromAliasedData` of
-- lang/ts/src/flow-context.ts).
use tramli.Prelude.{
  String, ◌==◌, eq_iff, ◌≡◌, refl, sym, ap, ◌∙◌, subst, inl, inr, true, false, Option, none, some,
  get_or, [], ◌∷◌, Dict, lookup, insert, keys, lookup-insert, lookup-insert_self, Bool-cases,
  Option-cases, Member, here, there, Member-cons, Member-nil,
}
use tramli.Prelude.Maps.Distinct.{IsMap, insert-IsMap}
use tramli.Context.{
  Value, Context, put, alias_of, key_of_alias, aliased_from, to_aliased_data, put_aliased,
  from_aliased_data,
}

lookup-insert_other :
    {V : Type 0} (written asked : String) (v : V) (m : Dict V)
    → ¬ written ≡ asked
    → lookup asked (insert written v m) ≡ lookup asked m
lookup-insert_other written asked v m other = elim (Bool-cases (written == asked)) [
  | inl e ↦ absurd (other ((eq_iff written asked).0 e))
  | inr e ↦ lookup-insert written asked v m ∙ rw e refl
]

absent-key : {V : Type 0} (k : String) (m : Dict V) → lookup k m ≡ none → ¬ Member k (keys m)
unfolding lookup keys
absent-key k [] h m = Member-nil m
absent-key k ((j, v) ∷ rest) h m = elim (Bool-cases (j == k)) [
  | inl e ↦ not_none (rw e at h)
  | inr e ↦ elim (Member-cons m) [
    | inl q ↦ same_differs (sym ((eq_iff j k).1 q) ∙ e)
    | inr n ↦ absent-key k rest (rw e at h) n
  ]
]
  where
    not_none : ¬ some v ≡ none
    not_none p = cc

    same_differs : ¬ true ≡ false
    same_differs p = cc

module _ (c : Context) where
  -- The name under which a key's value is written.
  abbrev pub name_of : String → String
  name_of k = get_or k (alias_of k c)

  aliased_from-other :
      (attributes out : Dict Value) (a : String)
      → ((j : String) → Member j (keys attributes) → ¬ name_of j ≡ a)
      → lookup a (aliased_from attributes c out) ≡ lookup a out
  unfolding aliased_from keys alias_of
  aliased_from-other [] out a h = refl
  aliased_from-other ((j, v) ∷ rest) out a h =
      aliased_from-other rest (insert (name_of j) v out) a (λ i m. h i (there m))
      ∙ lookup-insert_other (name_of j) a v out (h j here)

  aliased_from-lookup :
      (attributes out : Dict Value) (k : String) {v : Value}
      → IsMap attributes
      → lookup k attributes ≡ some v
      → ((j : String) → Member j (keys attributes) → name_of j ≡ name_of k → j ≡ k)
      → lookup (name_of k) (aliased_from attributes c out) ≡ some v
  unfolding aliased_from keys lookup alias_of
  aliased_from-lookup [] out k h e one = cc
  aliased_from-lookup ((j, w) ∷ rest) out k {v} (new, h) e one = elim (Bool-cases (j == k)) [
    | inl q ↦
        let same_key : j ≡ k = (eq_iff j k).0 q in
        let same_value : w ≡ v = (let p : some w ≡ some v = rw q at e in cc) in
        aliased_from-other rest (insert (name_of j) w out) (name_of k) (λ i m same.
          absent-key k rest (subst (λ z. lookup z rest ≡ none) same_key new)
            (subst (λ z. Member z (keys rest)) (one i (there m) same) m))
        ∙ (ap (λ z. lookup (name_of k) (insert (name_of z) w out)) same_key
            ∙ (lookup-insert_self (name_of k) w out ∙ ap some same_value))
    | inr q ↦
        aliased_from-lookup rest (insert (name_of j) w out) k h (rw q at e)
          (λ i m same. one i (there m) same)
  ]

  aliased_from-IsMap :
      (attributes out : Dict Value) → IsMap out → IsMap (aliased_from attributes c out)
  unfolding aliased_from alias_of
  aliased_from-IsMap [] out h = h
  aliased_from-IsMap ((j, v) ∷ rest) out h =
      aliased_from-IsMap rest (insert (name_of j) v out) (insert-IsMap (name_of j) v out h)

put_aliased-named :
    (x a : String) (v : Value) (o : Option String) (d : Context)
    → key_of_alias x (put_aliased a v o d) ≡ key_of_alias x d
unfolding put_aliased put key_of_alias
put_aliased-named x a v none d = refl
put_aliased-named x a v (some k) d = refl

put_aliased-other :
    (a : String) (v : Value) (o : Option String) (d : Context) (k : String)
    → ¬ o ≡ some k
    → lookup k (put_aliased a v o d).attributes ≡ lookup k d.attributes
unfolding put_aliased put
put_aliased-other a v none d k h = refl
put_aliased-other a v (some j) d k h = lookup-insert_other j k v d.attributes (λ q. h (ap some q))

from_aliased_data-other :
    (m : Dict Value) (d : Context) (k : String)
    → ((a : String) → Member a (keys m) → ¬ key_of_alias a d ≡ some k)
    → lookup k (from_aliased_data m d).attributes ≡ lookup k d.attributes
unfolding from_aliased_data keys
from_aliased_data-other [] d k h = refl
from_aliased_data-other ((a, v) ∷ rest) d k h =
    from_aliased_data-other rest (put_aliased a v (key_of_alias a d) d) k
      (λ b m q. h b (there m) (sym (put_aliased-named b a v (key_of_alias a d) d) ∙ q))
    ∙ put_aliased-other a v (key_of_alias a d) d k (h a here)

from_aliased_data-lookup :
    (m : Dict Value) (d : Context) (a k : String) {v : Value}
    → IsMap m
    → lookup a m ≡ some v
    → key_of_alias a d ≡ some k
    → ((b : String) → Member b (keys m) → key_of_alias b d ≡ some k → b ≡ a)
    → lookup k (from_aliased_data m d).attributes ≡ some v
unfolding from_aliased_data put_aliased keys put lookup
from_aliased_data-lookup [] d a k h e named one = cc
from_aliased_data-lookup ((b, w) ∷ rest) d a k {v} (new, h) e named one =
    elim (Bool-cases (b == a)) [
      | inl q ↦
          let same_alias : b ≡ a = (eq_iff b a).0 q in
          let same_value : w ≡ v = (let p : some w ≡ some v = rw q at e in cc) in
          let known : key_of_alias b d ≡ some k = ap (λ z. key_of_alias z d) same_alias ∙ named in
          from_aliased_data-other rest (put_aliased b w (key_of_alias b d) d) k (λ i m r.
            absent-key b rest new (
              subst (λ z. Member z (keys rest))
                (one i (there m) (sym (put_aliased-named i b w (key_of_alias b d) d) ∙ r)
                  ∙ sym same_alias)
                m))
          ∙ (ap (λ o. lookup k (put_aliased b w o d).attributes) known
              ∙ (lookup-insert_self k w d.attributes ∙ ap some same_value))
      | inr q ↦
          from_aliased_data-lookup rest (put_aliased b w (key_of_alias b d) d) a k h (rw q at e)
            (put_aliased-named a b w (key_of_alias b d) d ∙ named)
            (λ i m r. one i (there m) (sym (put_aliased-named i b w (key_of_alias b d) d) ∙ r))
    ]

-- Each alias stands for one key, and each key with an alias has that one; a key that has a value and
-- no alias is not the alias of another.
pub record Paired (c : Context) : Type 0 where
  pub one_key : (k a : String) → alias_of k c ≡ some a → key_of_alias a c ≡ some k
  pub one_alias : (k a : String) → key_of_alias a c ≡ some k → alias_of k c ≡ some a
  pub apart :
      (k : String) → Member k (keys c.attributes) → alias_of k c ≡ none → key_of_alias k c ≡ none

name_of-one :
    (c : Context) (k a : String)
    → Paired c
    → alias_of k c ≡ some a
    → (j : String) → Member j (keys c.attributes)
    → name_of c j ≡ name_of c k
    → j ≡ k
name_of-one c k a p aliased j m same = elim (Option-cases (alias_of j c)) [
  | inl e ↦
      let j_is_a : j ≡ a = sym (ap (get_or j) e) ∙ (same ∙ ap (get_or k) aliased) in
      absurd (
        some_is_not_none
          (sym (p.one_key k a aliased) ∙ (ap (λ z. key_of_alias z c) (sym j_is_a) ∙ p.apart j m e)))
  | inr (b, e) ↦
      let b_is_a : b ≡ a = sym (ap (get_or j) e) ∙ (same ∙ ap (get_or k) aliased) in
      let found : some j ≡ some k =
        sym (p.one_key j b e) ∙ (ap (λ z. key_of_alias z c) b_is_a ∙ p.one_key k a aliased) in
      cc
]
  where
    some_is_not_none : ¬ some k ≡ none
    some_is_not_none q = cc

-- What a context whose data are a map writes under its aliases, a context with the same aliases
-- reads back: each key that has an alias and a value has that value there, whatever the reading
-- context held, if the aliases are one to one and no key that has a value but no alias is itself an
-- alias.
pub aliased-roundtrip :
    (c d : Context) (k a : String) (v : Value)
    → IsMap c.attributes
    → Paired c
    → d.alias_to_key ≡ c.alias_to_key
    → alias_of k c ≡ some a
    → lookup k c.attributes ≡ some v
    → lookup k (from_aliased_data (to_aliased_data c) d).attributes ≡ some v
unfolding to_aliased_data key_of_alias
aliased-roundtrip c d k a v h p same_aliases aliased held =
    from_aliased_data-lookup (aliased_from c.attributes c []) d a k
      (aliased_from-IsMap c c.attributes [] tt)
      (subst (λ z. lookup z (aliased_from c.attributes c []) ≡ some v) (ap (get_or k) aliased)
        (aliased_from-lookup c c.attributes [] k h held (name_of-one c k a p aliased)))
      (ap (lookup a) same_aliases ∙ p.one_key k a aliased)
      λ b m named.
        let back : some b ≡ some a =
          sym (p.one_alias k b (sym (ap (lookup b) same_aliases) ∙ named)) ∙ aliased in
        cc
