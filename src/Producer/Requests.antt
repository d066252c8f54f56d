-- ===== src/Producer/Requests.antt =====
-- Which requests the fences stop.
use vrrelay.Prelude.{
  ℕ, ◌+◌, ◌-◌, ◌≤◌, String, false, none, some, or_else, ◌≡◌, ◌≢◌, arith, ◌⊎◌, inl, inr, eq_iff,
  eq_refl,
}
use vrrelay.Prelude.Maps.{get, get-set, get-delete}
use vrrelay.Producer.Refresh.{SessionView}
use vrrelay.Producer.Fences.{
  Fences, Token, fence_of, begin_ensure, end_ensure, call_stop, raise_fence, end_stop, close,
  begin_drain, end_drain, assert_request, lifecycle_fenced, session_fenced,
}

module _ (s : String) where
  -- What may happen while a request for the session is pending, with the number of the session's
  -- other pending requests before and after.
  pub data Step (f : Fences) (n : ℕ) : Fences → ℕ → Type 0 where
    begins : (g : Fences) (token : Token) → begin_ensure f s ≡ some (g, token) → Step f n g (n + 1)
    begins_other :
        (r : String) (g : Fences) (token : Token)
        → r ≢ s
        → begin_ensure f r ≡ some (g, token)
        → Step f n g n
    ends : (m : ℕ) → n ≡ m + 1 → Step f n (end_ensure f s) m
    ends_other : (r : String) → r ≢ s → Step f n (end_ensure f r) n
    calls : (r : String) (operation : ℕ) → Step f n (call_stop f r operation) n
    raises : (r : String) → Step f n (raise_fence f r) n
    ends_stop : (r : String) (operation : ℕ) → Step f n (end_stop f r operation) n
    closes : Step f n (close f) n
    drains : Step f n (begin_drain f) n
    ends_drain : Step f n (end_drain f) n

  pub data Steps (f : Fences) (n : ℕ) : Fences → ℕ → Type 0 where
    done : Steps f n f n
    more : (g h : Fences) (m k : ℕ) → Steps f n g m → Step g m h k → Steps f n h k

  -- The session's pending requests are counted, and the fences are at least so high.
  pub record Kept (session lifecycle : ℕ) (f : Fences) (n : ℕ) : Type 0 where
    pub counted : get s f.pending ≡ some (n + 1)
    pub session_fence : session ≤ fence_of s f
    pub lifecycle_fence : lifecycle ≤ f.lifecycle

  begin_other :
      (a b n : ℕ) (f g : Fences) (r : String) (token : Token)
      → r ≢ s
      → begin_ensure f r ≡ some (g, token)
      → Kept a b f n
      → Kept a b g n
  unfolding begin_ensure
  begin_other a b n f g r token other h k = record {
    counted = ground (
      arith,
      h,
      k.counted,
      other,
      get-set s r (or_else (get r f.pending) 0 + 1) f.pending,
      eq_iff r s,
    );
    session_fence = ground (arith, h, k.session_fence);
    lifecycle_fence = ground (arith, h, k.lifecycle_fence);
  }

  Step-Kept : (a b n m : ℕ) (f g : Fences) → Step f n g m → Kept a b f n → Kept a b g m
  unfolding begin_ensure end_ensure call_stop raise_fence end_stop close begin_drain end_drain
  Step-Kept a b n m f g (begins _ token h) k = record {
    counted =
        ground
          (arith, k.counted, get-set s s (or_else (get s f.pending) 0 + 1) f.pending, eq_refl s);
    session_fence = ground (arith, k.session_fence);
    lifecycle_fence = ground (arith, k.lifecycle_fence);
  }
  Step-Kept a b n m f g (begins_other r _ token other h) k = begin_other a b n f g r token other h k
  Step-Kept a b n m f g (ends _ e) k = record {
    counted =
        ground
          (arith, k.counted, e, get-set s s (or_else (get s f.pending) 1 - 1) f.pending, eq_refl s);
    session_fence = ground (arith, k.counted, e, k.session_fence);
    lifecycle_fence = ground (arith, k.lifecycle_fence);
  }
  Step-Kept a b n m f g (ends_other r other) k = record {
    counted = ground (
      arith,
      k.counted,
      other,
      eq_iff r s,
      get-set s r (or_else (get r f.pending) 1 - 1) f.pending,
      get-delete s r f.pending,
    );
    session_fence = ground (arith, k.session_fence, other, eq_iff r s, get-delete s r f.sessions);
    lifecycle_fence = ground (arith, k.lifecycle_fence);
  }
  Step-Kept a b n m f g (calls r operation) k = record {
    counted = k.counted;
    session_fence = k.session_fence;
    lifecycle_fence = k.lifecycle_fence;
  }
  Step-Kept a b n m f g (raises r) k = record {
    counted = k.counted;
    session_fence =
        ground (arith, k.session_fence, get-set s r (fence_of r f + 1) f.sessions, eq_iff r s);
    lifecycle_fence = k.lifecycle_fence;
  }
  Step-Kept a b n m f g (ends_stop r operation) k = record {
    counted = ground (arith, k.counted);
    session_fence =
        ground (arith, k.counted, k.session_fence, eq_iff r s, get-delete s r f.sessions);
    lifecycle_fence = ground (arith, k.lifecycle_fence);
  }
  Step-Kept a b n m f g closes k = record {
    counted = k.counted;
    session_fence = k.session_fence;
    lifecycle_fence = omega (arith, k.lifecycle_fence);
  }
  Step-Kept a b n m f g drains k = record {
    counted = ground (arith, k.counted);
    session_fence = ground (arith, k.session_fence);
    lifecycle_fence = ground (arith, k.lifecycle_fence);
  }
  Step-Kept a b n m f g ends_drain k = record {
    counted = k.counted;
    session_fence = k.session_fence;
    lifecycle_fence = k.lifecycle_fence;
  }

  Steps-Kept :
      (a b n : ℕ) (f : Fences) (m : ℕ) (g : Fences) → Steps f n g m → Kept a b f n → Kept a b g m
  Steps-Kept a b n f _ _ done k = k
  Steps-Kept a b n f m g (more h _ j _ before last) k =
      Step-Kept a b j m h g last (Steps-Kept a b n f j h before k)

  -- What ends the requests that are pending: a stop of the session, or an end of all.
  pub data Halts (f : Fences) : Fences → Type 0 where
    by_stop : Halts f (raise_fence f s)
    by_close : Halts f (close f)
    by_drain : f.closed ≡ false → Halts f (begin_drain f)

  -- The fences are not those that a request of this token read.
  abbrev Behind : Token → Fences → ℕ → Type 0
  Behind t f n = Kept (t.session + 1) t.lifecycle f n ⊎ Kept t.session (t.lifecycle + 1) f n

  Halts-Behind :
      (t : Token) (n : ℕ) (f g : Fences) → Halts f g → Kept t.session t.lifecycle f n → Behind t g n
  unfolding raise_fence close begin_drain
  Halts-Behind t n f g by_stop k = inl (record {
    counted = k.counted;
    session_fence =
        ground (arith, k.session_fence, get-set s s (fence_of s f + 1) f.sessions, eq_refl s);
    lifecycle_fence = k.lifecycle_fence;
  })
  Halts-Behind t n f g by_close k = inr (record {
    counted = k.counted;
    session_fence = k.session_fence;
    lifecycle_fence = omega (arith, k.lifecycle_fence);
  })
  Halts-Behind t n f g (by_drain o) k = inr (record {
    counted = ground (arith, o, k.counted);
    session_fence = ground (arith, o, k.session_fence);
    lifecycle_fence = ground (arith, o, k.lifecycle_fence);
  })

  begin-Kept :
      (t : Token) (n : ℕ) (f g : Fences)
      → or_else (get s f.pending) 0 ≡ n
      → begin_ensure f s ≡ some (g, t)
      → Kept t.session t.lifecycle g n
  unfolding begin_ensure
  begin-Kept t n f g e h = record {
    counted =
        ground (arith, h, e, get-set s s (or_else (get s f.pending) 0 + 1) f.pending, eq_refl s);
    session_fence = ground (arith, h);
    lifecycle_fence = ground (arith, h);
  }

  Behind-fenced :
      (t : Token) (n : ℕ) (f : Fences) (view : SessionView)
      → Behind t f n
      → assert_request f s t view ≢ none
  unfolding assert_request lifecycle_fenced session_fenced
  Behind-fenced t n f view (inl k) x = ground (arith, x, k.session_fence)
  Behind-fenced t n f view (inr k) x = ground (arith, x, k.lifecycle_fence)

  Steps-Behind : (t : Token) (n m : ℕ) (f g : Fences) → Steps f n g m → Behind t f n → Behind t g m
  Steps-Behind t n m f g st (inl k) = inl (Steps-Kept (t.session + 1) t.lifecycle n f m g st k)
  Steps-Behind t n m f g st (inr k) = inr (Steps-Kept t.session (t.lifecycle + 1) n f m g st k)

-- A request that is pending when the session is stopped, or when everything is closed or drained, is
-- refused at each of its later tests, whatever else begins and ends before and after: the
-- fence of a session is never dropped while one of its requests is pending.
pub halt-assert_request :
    (s : String) (t : Token) (view : SessionView) (n m k : ℕ) (f g before after later : Fences)
    → begin_ensure f s ≡ some (g, t)
    → or_else (get s f.pending) 0 ≡ n
    → Steps s g n before m
    → Halts s before after
    → Steps s after m later k
    → assert_request later s t view ≢ none
halt-assert_request s t view n m k f g before after later begun count earlier halt rest =
    let started = begin-Kept s t n f g count begun in
    let kept = Steps-Kept s t.session t.lifecycle n g m before earlier started in
    Behind-fenced s t k later view
      (Steps-Behind s t m k after later rest (Halts-Behind s t m before after halt kept))
