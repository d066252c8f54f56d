-- ===== src/Live/Claims.antt =====
-- Who gets a publisher's slot.
use vrrelay.Prelude.{
  ℕ, ◌+◌, String, Bool, true, false, not, ◌&&◌, Option, none, some, str_eq, ◌≡◌, ◌≢◌, inl, inr,
  refl, arith, eq_iff, eq_refl, Bool-cases, Option-cases,
}
use vrrelay.Prelude.Maps.{get, get-set}
use vrrelay.Repository.{Versioned}
use vrrelay.Live.Record.{PublisherState, LiveChannel, Channels, is_held}
use vrrelay.Live.Service.{
  Rewritten, wrote, refused, missing, conflict, Others, rewrite, replacing, replace_publisher,
  same_hash, is_given, may_claim, promoted, claiming, is_written, claim_slot,
}
use vrrelay.Live.Writing.{IsSteady, rewrite-Stored, rewrite-refused, quiet, quiet_wrote}

-- The slot of the channel is taken, and no replacement is asked for.
abbrev taken : Option (Versioned LiveChannel) → Bool
taken none = false
taken (some row) =
    is_held row.value.publisher_state && not (is_given row.value.replacement_token_hash)

abbrev pub IsTaken : String → Channels → Type 0
IsTaken id t = taken (get id t) ≡ true

-- A replacement of the publisher by who has the token with this hash is asked for.
abbrev awaiting : String → Option (Versioned LiveChannel) → Bool
awaiting hash none = false
awaiting hash (some row) = same_hash hash row.value.replacement_token_hash

abbrev pub Awaits : String → String → Channels → Type 0
Awaits hash id t = awaiting hash (get id t) ≡ true

pub claiming-taken :
    (hash : String) (now : ℕ) (c : LiveChannel)
    → may_claim hash c ≡ true
    → not (is_given (claiming hash now c).replacement_token_hash) ≡ true
unfolding may_claim claiming promoted
claiming-taken hash now c h = elim (Bool-cases (same_hash hash c.replacement_token_hash)) [
  | inl y ↦ ground (arith, y)
  | inr n ↦ elim (Bool-cases (str_eq hash c.publish_token_hash)) [
    | inr x ↦ absurd (ground (arith, n, x, h))
    | inl p ↦ ground (arith, n, p, h)
  ]
]

pub claiming_state :
    (hash : String) (now : ℕ) (c : LiveChannel)
    → (claiming hash now c).publisher_state ≡ PublisherState.reconnecting
unfolding claiming
claiming_state hash now c = refl

pub is_written-wrote :
    (r : Rewritten) → is_written r ≡ true → (row : Versioned LiveChannel) × (r ≡ wrote row)
is_written-wrote (wrote row) h = (row, refl)
is_written-wrote refused h = absurd (ground (arith, h))
is_written-wrote missing h = absurd (ground (arith, h))
is_written-wrote conflict h = absurd (ground (arith, h))

claim_slot-IsTaken :
    (others : Others) (id hash : String) (now : ℕ) (t : Channels)
    → IsSteady id others
    → (claim_slot others id hash now t).1 ≡ true
    → IsTaken id (claim_slot others id hash now t).0
unfolding claim_slot
claim_slot-IsTaken others id hash now t steady h =
    let (next, e) =
      is_written-wrote (rewrite (may_claim hash) (claiming hash now) others id t).1 h in
    let s = rewrite-Stored (may_claim hash) (claiming hash now) id others steady next t e in
    ground (
      arith,
      s.replaced,
      s.updated,
      claiming-taken hash now s.former.value s.accepted,
      claiming_state hash now s.former.value,
      get-set id id next s.before,
      eq_refl id,
    )

IsTaken-may_claim :
    (hash : String) (c : LiveChannel)
    → is_held c.publisher_state ≡ true
    → not (is_given c.replacement_token_hash) ≡ true
    → hash ≢ ""
    → may_claim hash c ≡ false
unfolding may_claim
IsTaken-may_claim hash c held n some_hash = elim (Option-cases c.replacement_token_hash) [
  | inl x ↦ ground (arith, x, held)
  | inr (h, x) ↦ ground (arith, x, held, n, some_hash, eq_iff h "", eq_iff hash h)
]

Awaits-may_claim :
    (hash other : String) (c : LiveChannel)
    → same_hash hash c.replacement_token_hash ≡ true
    → other ≢ hash
    → hash ≢ ""
    → may_claim other c ≡ false
unfolding may_claim
Awaits-may_claim hash other c h differs given = elim (Option-cases c.replacement_token_hash) [
  | inl x ↦ absurd (ground (arith, x, h))
  | inr (r, x) ↦ ground (arith, x, h, differs, given, eq_iff hash r, eq_iff other r, eq_iff r "")
]

-- When a claim of a publisher's slot has succeeded, every later claim of the same slot is refused,
-- with whatever token (its hash is not empty), the same one included, as long as the slot stays taken and nobody asks for a
-- replacement. During the first claim others only delete the channel or raise its revision.
pub claim_slot-excludes :
    (others later : Others) (id hash hash' : String) (now now' : ℕ) (t : Channels)
    → IsSteady id others
    → (claim_slot others id hash now t).1 ≡ true
    → hash' ≢ ""
    → ((n : ℕ) (u : Channels) → IsTaken id u → IsTaken id (later n u))
    → (claim_slot later id hash' now' (claim_slot others id hash now t).0).1 ≡ false
unfolding claim_slot
claim_slot-excludes others later id hash hash' now now' t steady h some_hash fair =
    refused_there (get id (later 5 after)) refl
      (fair 5 after (claim_slot-IsTaken others id hash now t steady h))
  where
    after : Channels
    after = (claim_slot others id hash now t).0

    refused_there :
        (o : Option (Versioned LiveChannel))
        → get id (later 5 after) ≡ o
        → taken o ≡ true
        → (claim_slot later id hash' now' after).1 ≡ false
    refused_there none e k = absurd (ground (arith, k))
    refused_there (some row) e k =
        rewrite-refused (may_claim hash') (claiming hash' now') id later after row e
          (IsTaken-may_claim hash' row.value (ground (arith, k)) (ground (arith, k)) some_hash)

replacing-awaiting :
    (others : Others) (id hash : String) (now : ℕ) (row : Versioned LiveChannel) (t : Channels)
    → IsSteady id others
    → (replace_publisher others id hash now t).1 ≡ wrote row
    → (get id (replace_publisher others id hash now t).0 ≡ some row)
      × (row.value.replacement_token_hash ≡ some hash)
unfolding replace_publisher replacing
replacing-awaiting others id hash now row t steady h =
    let s = rewrite-Stored (λ c. true) (replacing hash now) id others steady row t h in
    (
      ground (arith, s.replaced, get-set id id row s.before, eq_refl id),
      ground (arith, s.updated, replacing),
    )

-- The primary token's hash of a channel.
abbrev pub primary : Option (Versioned LiveChannel) → Option String
primary none = none
primary (some row) = some row.value.publish_token_hash

replacement-may_claim :
    (hash : String) (c : LiveChannel)
    → c.replacement_token_hash ≡ some hash
    → c.publish_token_hash ≢ hash
    → may_claim hash c ≡ true
unfolding may_claim
replacement-may_claim hash c r differs =
    ground (arith, r, differs, eq_refl hash, eq_iff hash c.publish_token_hash)

replacement-claiming :
    (hash : String) (now : ℕ) (c : LiveChannel)
    → c.replacement_token_hash ≡ some hash
    → (claiming hash now c).publish_token_hash ≡ hash
unfolding claiming promoted
replacement-claiming hash now c r = ground (arith, r, eq_refl hash)

-- A claim with the replacement's token, where nobody else writes.
quiet_claim :
    (id hash : String) (now : ℕ) (t : Channels) (row : Versioned LiveChannel)
    → get id t ≡ some row
    → row.value.replacement_token_hash ≡ some hash
    → row.value.publish_token_hash ≢ hash
    → let r = claim_slot quiet id hash now t in
      (r.1 ≡ true) × (primary (get id r.0) ≡ some hash) × IsTaken id r.0
unfolding claim_slot
quiet_claim id hash now t row e r differs =
    let w = quiet_wrote (may_claim hash) (claiming hash now) id t row e may in
    rw w (
      refl,
      ground (arith, get-set id id next t, eq_refl id, replacement-claiming hash now row.value r),
      ground (
        arith,
        get-set id id next t,
        eq_refl id,
        claiming_state hash now row.value,
        claiming-taken hash now row.value may,
      ),
    )
  where
    may : may_claim hash row.value ≡ true
    may = replacement-may_claim hash row.value r differs

    next : Versioned LiveChannel
    next = record { value = claiming hash now row.value; revision = row.revision + 1 }

-- When a replacement of a channel's publisher is issued, only the token that is issued is accepted as
-- long as the replacement is pending: a claim with any other one, the primary one included, is refused.
-- The token that is issued, if it is not the primary one already, is accepted where nobody interferes,
-- whoever holds the slot, and is the primary one from then on, with the slot taken and no replacement
-- pending. While the replacement is issued others only delete the channel or raise its revision.
pub replace_publisher-supersedes :
    (others later : Others) (id hash other : String) (now now' : ℕ) (t : Channels)
    (row : Versioned LiveChannel)
    → IsSteady id others
    → ((n : ℕ) (u : Channels) → Awaits hash id u → Awaits hash id (later n u))
    → hash ≢ ""
    → other ≢ hash
    → row.value.publish_token_hash ≢ hash
    → (replace_publisher others id hash now t).1 ≡ wrote row
    → let after = (replace_publisher others id hash now t).0 in
      ((claim_slot later id other now' after).1 ≡ false)
      × ((claim_slot quiet id hash now' after).1 ≡ true)
      × (primary (get id (claim_slot quiet id hash now' after).0) ≡ some hash)
      × IsTaken id (claim_slot quiet id hash now' after).0
unfolding claim_slot
replace_publisher-supersedes others later id hash other now now' t row steady fair given differs
      former h =
    let (stands, awaits) = replacing-awaiting others id hash now row t steady h in
    let (accepted, promotes, takes) = quiet_claim id hash now' _ row stands awaits former in
    (
      refused_there (get id (later 5 after)) refl
          (fair 5 after (ground (arith, stands, awaits, eq_refl hash))),
      accepted,
      promotes,
      takes,
    )
  where
    after : Channels
    after = (replace_publisher others id hash now t).0

    refused_there :
        (o : Option (Versioned LiveChannel))
        → get id (later 5 after) ≡ o
        → awaiting hash o ≡ true
        → (claim_slot later id other now' after).1 ≡ false
    refused_there none e k = absurd (ground (arith, k))
    refused_there (some next) e k =
        rewrite-refused (may_claim other) (claiming other now') id later after next e
          (Awaits-may_claim hash other next.value k differs given)
