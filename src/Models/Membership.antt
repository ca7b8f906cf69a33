-- ===== src/Models/Membership.antt =====
-- pkg/models/group.go: which groups pass the validation of their members.
use llm_supervisor_proxy.Models.{GroupMember, ModelConfig}
use llm_supervisor_proxy.Models.Groups.{
  GroupError, Target, missing, a_group, other_kind, a_chat, check_claims, check_member,
  check_members, check_shadow, count_defaults, find_row, has_seen, max_group_members, or_else,
  shadow_target, target_of, validate_group_members, validate_row, kind_group,
}
use llm_supervisor_proxy.Support.{
  ℕ, suc, ◌≤◌, ◌≡◌, ◌≢◌, ◌⊎◌, ◌↔◌, refl, Bool, true, false, not, ◌&&◌, String, List, [], ◌∷◌,
  Option, none, some, Bool-cases, inl, inr, arith, ltb, ◌==◌, length, str_eq, if◌then◌else◌,
}

abbrev pub HasDefault : List GroupMember → Type 0
HasDefault [] = ⊥
HasDefault (mm ∷ members) = (mm.backup_only ≡ false) ⊎ HasDefault members

-- A member has a name and a positive weight, and stands for a chat model of the collection.
abbrev pub IsMember : List ModelConfig → GroupMember → Type 0
IsMember collection mm =
    (str_eq mm.model_id "" ≡ false)
    × ((mm.weight_positive ≡ true) × (target_of (find_row mm.model_id collection) ≡ a_chat))

abbrev pub AllMembers : List ModelConfig → List GroupMember → Type 0
AllMembers collection [] = Unit
AllMembers collection (mm ∷ members) = IsMember collection mm × AllMembers collection members

abbrev pub NotAmong : String → List GroupMember → Type 0
NotAmong id [] = Unit
NotAmong id (mm ∷ members) = (str_eq id mm.model_id ≡ false) × NotAmong id members

abbrev pub AllDifferent : List GroupMember → Type 0
AllDifferent [] = Unit
AllDifferent (mm ∷ members) = NotAmong mm.model_id members × AllDifferent members

-- Another enabled group has the same shadow.
abbrev pub claims : ModelConfig → ModelConfig → Bool
claims m other =
    not (str_eq other.id m.id)
    && (str_eq other.kind kind_group
        && (other.enabled && str_eq other.shadow_model_id m.shadow_model_id))

abbrev pub Unclaimed : ModelConfig → List ModelConfig → Type 0
Unclaimed m [] = Unit
Unclaimed m (other ∷ collection) = (claims m other ≡ false) × Unclaimed m collection

abbrev pub HasShadow : ModelConfig → List ModelConfig → Type 0
HasShadow m collection =
    (str_eq m.shadow_model_id "" ≡ true)
    ⊎ ((target_of (find_row m.shadow_model_id collection) ≡ a_chat) × Unclaimed m collection)

abbrev pub IsGroup : ModelConfig → List ModelConfig → Type 0
IsGroup m collection =
    (length m.members ≤ max_group_members)
    × (HasDefault m.members
        × (AllMembers collection m.members × (AllDifferent m.members × HasShadow m collection)))

abbrev Avoids : List String → List GroupMember → Type 0
Avoids seen [] = Unit
Avoids seen (mm ∷ members) = (has_seen mm.model_id seen ≡ false) × Avoids seen members

Avoids-split :
    (id : String) (seen : List String) (members : List GroupMember)
    → Avoids (id ∷ seen) members
    → NotAmong id members × Avoids seen members
unfolding has_seen
Avoids-split id seen [] h = (tt, tt)
Avoids-split id seen (mm ∷ members) h = ground (arith, h, Avoids-split id seen members h.1)

Avoids-join :
    (id : String) (seen : List String) (members : List GroupMember)
    → NotAmong id members
    → Avoids seen members
    → Avoids (id ∷ seen) members
unfolding has_seen
Avoids-join id seen [] n h = tt
Avoids-join id seen (mm ∷ members) n h = ground (arith, n, h, Avoids-join id seen members n.1 h.1)

check_member_passes :
    (idx : ℕ) (mm : GroupMember) (seen : List String) (collection : List ModelConfig)
    → check_member idx mm seen collection ≡ none
    → IsMember collection mm × (has_seen mm.model_id seen ≡ false)
unfolding check_member
check_member_passes idx mm seen collection h = ground (arith, h)

check_member_accepts :
    (idx : ℕ) (mm : GroupMember) (seen : List String) (collection : List ModelConfig)
    → IsMember collection mm
    → has_seen mm.model_id seen ≡ false
    → check_member idx mm seen collection ≡ none
unfolding check_member
check_member_accepts idx mm seen collection i h = rw (i.0, i.1.0, h, i.1.1) refl

or_else-none : (a b : Option GroupError) → or_else a b ≡ none → (a ≡ none) × (b ≡ none)
or_else-none none b h = (refl, h)
or_else-none (some err) b h = absurd (ground (arith, h))

or_else-both : (a b : Option GroupError) → a ≡ none → b ≡ none → or_else a b ≡ none
or_else-both a b p q = rw (p, q) refl

check_members_pass :
    (idx : ℕ) (members : List GroupMember) (seen : List String) (collection : List ModelConfig)
    → check_members idx members seen collection ≡ none
    → AllMembers collection members × (AllDifferent members × Avoids seen members)
unfolding check_members
check_members_pass idx [] seen collection h = (tt, (tt, tt))
check_members_pass idx (mm ∷ members) seen collection h =
    let both = or_else-none (check_member idx mm seen collection) _ h in
    let first = check_member_passes idx mm seen collection both.0 in
    let rest = check_members_pass (suc idx) members (mm.model_id ∷ seen) collection both.1 in
    let apart = Avoids-split mm.model_id seen members rest.1.1 in
    ((first.0, rest.0), ((apart.0, rest.1.0), (first.1, apart.1)))

check_members_accept :
    (idx : ℕ) (members : List GroupMember) (seen : List String) (collection : List ModelConfig)
    → AllMembers collection members
    → AllDifferent members
    → Avoids seen members
    → check_members idx members seen collection ≡ none
unfolding check_members
check_members_accept idx [] seen collection a d v = refl
check_members_accept idx (mm ∷ members) seen collection a d v =
    or_else-both (check_member idx mm seen collection) _
      (check_member_accepts idx mm seen collection a.0 v.0)
      (check_members_accept (suc idx) members (mm.model_id ∷ seen) collection a.1 d.1
        (Avoids-join mm.model_id seen members d.0 v.1))

check_claims_pass :
    (m : ModelConfig) (collection : List ModelConfig)
    → check_claims m collection ≡ none
    → Unclaimed m collection
unfolding check_claims
check_claims_pass m [] h = tt
check_claims_pass m (other ∷ collection) h = ground (arith, h, check_claims_pass m collection)

check_claims_accept :
    (m : ModelConfig) (collection : List ModelConfig)
    → Unclaimed m collection
    → check_claims m collection ≡ none
unfolding check_claims
check_claims_accept m [] u = refl
check_claims_accept m (other ∷ collection) u =
    ground (arith, u, check_claims_accept m collection u.1)

shadow_target_pass :
    (m : ModelConfig) (collection : List ModelConfig) (t : Target)
    → shadow_target m collection t ≡ none
    → (t ≡ a_chat) × Unclaimed m collection
shadow_target_pass m collection missing h = absurd (ground (arith, h))
shadow_target_pass m collection a_group h = absurd (ground (arith, h))
shadow_target_pass m collection other_kind h = absurd (ground (arith, h))
shadow_target_pass m collection a_chat h = (refl, check_claims_pass m collection h)

check_shadow_pass :
    (m : ModelConfig) (collection : List ModelConfig)
    → check_shadow m collection ≡ none
    → HasShadow m collection
unfolding check_shadow
check_shadow_pass m collection h = elim (Bool-cases (str_eq m.shadow_model_id "")) [
  | inl e ↦ inl e
  | inr e ↦ inr (shadow_target_pass m collection _ (ground (arith, e, h)))
]

check_shadow_accept :
    (m : ModelConfig) (collection : List ModelConfig)
    → HasShadow m collection
    → check_shadow m collection ≡ none
unfolding check_shadow
check_shadow_accept m collection (inl e) = rw e refl
check_shadow_accept m collection (inr (t, u)) = elim (Bool-cases (str_eq m.shadow_model_id "")) [
  | inl e ↦ rw e refl
  | inr e ↦ rw (e, t) (check_claims_accept m collection u)
]

count_defaults-HasDefault :
    (members : List GroupMember) → 1 ≤ count_defaults members → HasDefault members
unfolding count_defaults
count_defaults-HasDefault [] h = absurd (omega (arith, h))
count_defaults-HasDefault (mm ∷ members) h = elim (Bool-cases mm.backup_only) [
  | inl e ↦ inr (count_defaults-HasDefault members (ground (arith, e, h)))
  | inr e ↦ inl e
]

HasDefault-count_defaults :
    (members : List GroupMember) → HasDefault members → 1 ≤ count_defaults members
unfolding count_defaults
HasDefault-count_defaults [] h = absurd h
HasDefault-count_defaults (mm ∷ members) (inl e) = rw e (omega arith)
HasDefault-count_defaults (mm ∷ members) (inr h) =
    ground (arith, HasDefault-count_defaults members h)

HasDefault-length : (members : List GroupMember) → HasDefault members → length members ≢ 0
HasDefault-length [] h z = h
HasDefault-length (mm ∷ members) h z = omega (arith, z)

Avoids-none : (members : List GroupMember) → Avoids [] members
unfolding has_seen
Avoids-none [] = tt
Avoids-none (mm ∷ members) = (refl, Avoids-none members)

-- No error comes through three guards just when none of them applies and the rest gives none.
guards_pass :
    (a b c : Bool) (p q r : GroupError) (x : Option GroupError)
    → (if a then some p else (if b then some q else (if c then some r else x))) ≡ none
    → (a ≡ false) × ((b ≡ false) × ((c ≡ false) × (x ≡ none)))
guards_pass true b c p q r x h = absurd (ground (arith, h))
guards_pass false true c p q r x h = absurd (ground (arith, h))
guards_pass false false true p q r x h = absurd (ground (arith, h))
guards_pass false false false p q r x h = (refl, (refl, (refl, h)))

guards_accept :
    (a b c : Bool) (p q r : GroupError) (x : Option GroupError)
    → a ≡ false
    → b ≡ false
    → c ≡ false
    → x ≡ none
    → (if a then some p else (if b then some q else (if c then some r else x))) ≡ none
guards_accept a b c p q r x e f g h = rw (e, f, g) h

not_zero : (n : ℕ) → n ≢ 0 → n == 0 ≡ false
not_zero n h = ground (arith, h)

at_most : (n m : ℕ) → n ≤ m → ltb m n ≡ false
at_most n m h = ground (arith, h)

at_least : (n m : ℕ) → ltb n m ≡ false → m ≤ n
at_least n m h = ground (arith, h)

validate_row_pass :
    (m : ModelConfig) (collection : List ModelConfig)
    → validate_row m collection ≡ none
    → IsGroup m collection
unfolding validate_row
validate_row_pass m collection h =
    let found =
      guards_pass (length m.members == 0) (ltb max_group_members (length m.members))
        (ltb (count_defaults m.members) 1) _ _ _ _ h in
    let both = or_else-none (check_members 0 m.members [] collection) _ found.1.1.1 in
    let passed = check_members_pass 0 m.members [] collection both.0 in
    (
      at_least max_group_members (length m.members) found.1.0,
      (
        count_defaults-HasDefault m.members (at_least (count_defaults m.members) 1 found.1.1.0),
        (passed.0, (passed.1.0, check_shadow_pass m collection both.1)),
      ),
    )

validate_row_accept :
    (m : ModelConfig) (collection : List ModelConfig)
    → IsGroup m collection
    → validate_row m collection ≡ none
unfolding validate_row
validate_row_accept m collection (n, (d, (a, (v, w)))) =
    guards_accept (length m.members == 0) (ltb max_group_members (length m.members))
      (ltb (count_defaults m.members) 1) _ _ _ _
      (not_zero (length m.members) (HasDefault-length m.members d))
      (at_most (length m.members) max_group_members n)
      (at_most 1 (count_defaults m.members) (HasDefault-count_defaults m.members d))
      (or_else-both (check_members 0 m.members [] collection) _
        (check_members_accept 0 m.members [] collection a v (Avoids-none m.members))
        (check_shadow_accept m collection w))

-- The members of a group pass the validation just when there are at most 16 of them, at least one is
-- no backup, each has a name, a positive weight and a chat model in the collection, no two name the
-- same model, and the group has no shadow model or one that is a chat model of the collection and that
-- no other enabled group has.
pub validate_group_members_lem :
    (m : ModelConfig) (collection : List ModelConfig)
    → ((validate_group_members (some m) collection ≡ none) ↔ IsGroup m collection)
unfolding validate_group_members
validate_group_members_lem m collection =
    (validate_row_pass m collection, validate_row_accept m collection)
