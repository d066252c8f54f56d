-- ===== src/Live/Authorizing.antt =====
-- Who is allowed to publish.
use vrrelay.Prelude.{
  ℕ, ◌+◌, String, Bool, true, false, not, ◌&&◌, ◌||◌, Option, none, some, List, [], ◌∷◌, str_eq,
  any, if◌then◌else◌, ◌≡◌, ◌⊎◌, inl, inr, refl, arith, eq_iff, Bool-cases,
}
use vrrelay.Prelude.Maps.{get, set}
use vrrelay.Prelude.Sorting.{Member}
use vrrelay.Repository.{Versioned}
use vrrelay.Live.Record.{PublisherState, LiveChannel, Channels, is_held, ingest}
use vrrelay.Live.Channels.{list_channels}
use vrrelay.Live.Service.{
  Others, same_hash, is_given, may_claim, promoted, claiming, claim_slot, rewrite,
}
use vrrelay.Live.Writing.{IsSteady, rewrite-Stored}
use vrrelay.Live.Claims.{claiming-taken, claiming_state, is_written-wrote}
use vrrelay.Live.Access.{
  Access, is_internal, with_ingest, supplied_hash, publish_to, authorize_publish, authorize,
}

-- The token is that of the replacement that is asked for, or the primary one of a channel whose slot is
-- free and of which no replacement is asked for.
abbrev pub IsEntitled : String → LiveChannel → Type 0
IsEntitled hash c =
    (c.replacement_token_hash ≡ some hash)
    ⊎ ((c.publish_token_hash ≡ hash)
        × (is_given c.replacement_token_hash ≡ false)
        × (is_held c.publisher_state ≡ false))

-- What it is to be admitted with the hash of a token at a path: one of the channels that were there
-- has the path, its row was that of a channel to which the token entitles, and what stands in its
-- place is the same channel with this token as its primary one and with the slot taken.
pub record Admitted (hash path : String) (t after : Channels) : Type 0 where
  pub channel : LiveChannel
  pub listed : Member channel (list_channels t)
  pub reached : ingest channel ≡ path
  pub before : Channels
  pub former : Versioned LiveChannel
  pub next : Versioned LiveChannel
  pub stood : get channel.id before ≡ some former
  pub entitled : IsEntitled hash former.value
  pub replaced : after ≡ set channel.id next before
  pub revision : next.revision ≡ former.revision + 1
  pub token : next.value.publish_token_hash ≡ hash
  pub settled : is_given next.value.replacement_token_hash ≡ false
  pub state : next.value.publisher_state ≡ PublisherState.reconnecting

may_claim-IsEntitled :
    (hash : String) (c : LiveChannel) → may_claim hash c ≡ true → IsEntitled hash c
unfolding may_claim
may_claim-IsEntitled hash c h = elim (Bool-cases (same_hash hash c.replacement_token_hash)) [
  | inl y ↦ inl (by_replacement c.replacement_token_hash y)
  | inr n ↦ elim (Bool-cases (str_eq hash c.publish_token_hash)) [
    | inr x ↦ absurd (ground (arith, n, x, h))
    | inl p ↦ inr (
      ground (arith, p, eq_iff hash c.publish_token_hash),
      ground (arith, n, p, h),
      ground (arith, n, p, h),
    )
  ]
]
  where
    by_replacement : (o : Option String) → same_hash hash o ≡ true → o ≡ some hash
    by_replacement none y = absurd (ground (arith, y))
    by_replacement (some r) y = ground (arith, y, eq_iff hash r)

may_claim-claiming :
    (hash : String) (now : ℕ) (c : LiveChannel)
    → may_claim hash c ≡ true
    → (claiming hash now c).publish_token_hash ≡ hash
unfolding may_claim claiming promoted
may_claim-claiming hash now c h = elim (Bool-cases (same_hash hash c.replacement_token_hash)) [
  | inl y ↦ ground (arith, y)
  | inr n ↦ ground (arith, n, h, eq_iff hash c.publish_token_hash)
]

with_ingest-Member :
    (path : String) (cs : List LiveChannel) (c : LiveChannel)
    → with_ingest path cs ≡ some c
    → Member c cs × (ingest c ≡ path)
unfolding with_ingest
with_ingest-Member path [] c e = absurd (ground (arith, e))
with_ingest-Member path (d ∷ cs) c e = elim (Bool-cases (str_eq (ingest d) path)) [
  | inl y ↦ (inl (ground (arith, y, e)), ground (arith, y, e, eq_iff (ingest d) path))
  | inr n ↦ let (there, q) = with_ingest-Member path cs c (ground (arith, n, e)) in (inr there, q)
]

module _ (others : Others) (steady : (id : String) → IsSteady id others) (now : ℕ)
    (t : Channels) where
  claim_slot-Admitted :
      (hash path : String) (c : LiveChannel)
      → Member c (list_channels t)
      → ingest c ≡ path
      → (claim_slot others c.id hash now t).1 ≡ true
      → Admitted hash path t (claim_slot others c.id hash now t).0
  unfolding claim_slot
  claim_slot-Admitted hash path c there q h =
      let (next, e) =
        is_written-wrote (rewrite (may_claim hash) (claiming hash now) others c.id t).1 h in
      let s =
        rewrite-Stored (may_claim hash) (claiming hash now) c.id others (steady c.id) next t e in
      record {
        channel = c;
        listed = there;
        reached = q;
        before = s.before;
        former = s.former;
        next = next;
        stood = s.stood;
        entitled = may_claim-IsEntitled hash s.former.value s.accepted;
        replaced = s.replaced;
        revision = ground (arith, s.updated);
        token = ground (arith, s.updated, may_claim-claiming hash now s.former.value s.accepted);
        settled = ground (arith, s.updated, claiming-taken hash now s.former.value s.accepted);
        state = ground (arith, s.updated, claiming_state hash now s.former.value);
      }

  publish_to-Admitted :
      (hash path : String) (o : Option LiveChannel)
      → with_ingest path (list_channels t) ≡ o
      → (publish_to others hash now o t).1 ≡ true
      → Admitted hash path t (publish_to others hash now o t).0
  unfolding publish_to
  publish_to-Admitted hash path none e h = absurd (ground (arith, h))
  publish_to-Admitted hash path (some c) e h =
      by_test
        (str_eq hash ""
          || (not (str_eq hash c.publish_token_hash)
              && not (same_hash hash c.replacement_token_hash)))
        h
    where
      by_test :
          (b : Bool)
          → (if b then (t, false) else claim_slot others c.id hash now t).1 ≡ true
          → Admitted hash path t (if b then (t, false) else claim_slot others c.id hash now t).0
      by_test true k = absurd (ground (arith, k))
      by_test false k =
          let (there, q) = with_ingest-Member path (list_channels t) c e in
          claim_slot-Admitted hash path c there q k

  unfoldable Allowed : (String → String) → Bool → Access → Channels × Bool → Type 0
  Allowed hash allowed a r =
      ((is_internal allowed a ≡ true)
        × (any (λ c. c.normalize && str_eq c.path a.path) (list_channels t) ≡ true)
        × (r.0 ≡ t))
      ⊎ ((same_hash "vrrelay-publish" a.user ≡ true) × Admitted (supplied_hash hash a) a.path t r.0)

  authorize_publish-Admitted :
      (hash : String → String) (allowed : Bool) (a : Access)
      → (authorize_publish hash allowed others a now t).1 ≡ true
      → Allowed hash allowed a (authorize_publish hash allowed others a now t)
  unfolding authorize_publish Allowed
  authorize_publish-Admitted hash allowed a h =
      by_tests (is_internal allowed a) refl (same_hash "vrrelay-publish" a.user) refl h
    where
      outcome : Bool → Bool → Channels × Bool
      outcome b c =
          if b
          then (t, any (λ c. c.normalize && str_eq c.path a.path) (list_channels t))
          else if not c
          then (t, false)
          else publish_to others (supplied_hash hash a) now (with_ingest a.path (list_channels t)) t

      by_tests :
          (b : Bool)
          → is_internal allowed a ≡ b
          → (c : Bool) → same_hash "vrrelay-publish" a.user ≡ c
          → (outcome b c).1 ≡ true
          → Allowed hash allowed a (outcome b c)
      by_tests true x c y k = inl (x, k, refl)
      by_tests false x false y k = absurd (ground (arith, k))
      by_tests false x true y k = inr (
        y,
        publish_to-Admitted (supplied_hash hash a) a.path (with_ingest a.path (list_channels t))
            refl k,
      )

  -- Publishing is only authorised to the server's own transcoder on the output path of a normalised
  -- channel, where that is allowed, or to the publishing user with a token that entitles to a channel
  -- at the path: the replacement that is asked for, or the primary token of a channel whose slot is
  -- free. The channel then has that token as its primary one, no replacement is pending, and the slot
  -- is taken. Meanwhile others only delete channels or raise their revisions.
  pub authorize-Admitted :
      (hash : String → String) (allowed : Bool) (read_token : String) (a : Access)
      → a.action ≡ "publish"
      → (authorize hash allowed others read_token a now t).1 ≡ true
      → ((is_internal allowed a ≡ true)
          × (any (λ c. c.normalize && str_eq c.path a.path) (list_channels t) ≡ true)
          × ((authorize hash allowed others read_token a now t).0 ≡ t))
        ⊎ ((same_hash "vrrelay-publish" a.user ≡ true)
            × Admitted
                (supplied_hash hash a)
                a.path
                t
                (authorize hash allowed others read_token a now t).0)
  unfolding authorize Allowed supplied_hash
  authorize-Admitted hash allowed read_token a action h =
      rw action (authorize_publish-Admitted hash allowed a (rw action at h))
