-- ===== src/CloudWatch/Process/Delivery.antt =====
-- What `processBatch` does with the events of the queue: none is lost before it is sent, and the
-- requests hold the texts of the events that were taken, in their order.
pub mod Rounds
use mcma_libraries.Prelude.{
  ℕ, zero, suc, ◌+◌, ◌-◌, ◌≤◌, ◌<◌, ◌≡◌, refl, sym, ◌∙◌, ap, Bool, true, false, String, Option,
  none, some, List, [], ◌∷◌, ◌++◌, map, inl, inr, Result, ok, err, is_nil, All, All-append, length,
  join, join-append, map-append, append-nil, append_assoc, arith, Bool-cases, Option-cases,
}
use mcma_libraries.CloudWatch.{
  max_request_size, PreparedLogEvent, InputLogEvent, to_input, prepare, batch,
}
use mcma_libraries.CloudWatch.Text.{IsText}
use mcma_libraries.CloudWatch.Batches.{
  request_size, Fits, batch_lem, map-message, Prepared, prepare-Prepared,
}
use mcma_libraries.CloudWatch.Process.{
  Client, World, arrive_from, arrive, find_group, create_group, verify_group, create_stream,
  send_log_events, send_all, drain, process_round, process_loop, process_batch,
}

-- The queue with all that will still arrive.
abbrev pub pending : {E S : Type 0} → World E S → List E
pending w = w.log_events ++ join w.arrivals

abbrev pub texts_of : List (List InputLogEvent) → List ℕ
texts_of requests = join (map (λ (e : InputLogEvent). e.message) (join requests))

texts_of-append :
    (xs ys : List (List InputLogEvent)) → texts_of (xs ++ ys) ≡ texts_of xs ++ texts_of ys
texts_of-append xs ys = simp (join-append, map-append)

-- The log group and the log stream are known to exist.
abbrev pub IsReady : {E S : Type 0} → World E S → Type 0
IsReady w = (w.log_group_verified ≡ true) × (w.log_stream_created ≡ true)

module _ {E S : Type 0} where
  -- The queue, the arrivals and the requests are unchanged.
  record Same (w w' : World E S) : Type 0 where
    queue : w'.log_events ≡ w.log_events
    coming : w'.arrivals ≡ w.arrivals
    sent : w'.requests ≡ w.requests
    ready : IsReady w → IsReady w'

module _ {E S : Type 0} (client : Client S) (group stream : String) where
  create_group-Same : (w : World E S) → Same w (create_group client group stream w).1
  unfolding create_group
  create_group-Same w = ground arith

  verify_group-Same :
      (pages : ℕ) (w w' : World E S) (r : Result (Unit {0}))
      → verify_group client group stream pages w ≡ some (r, w')
      → Same w w'
  unfolding verify_group
  verify_group-Same pages w w' r h = ground arith

  verify_group-ready :
      (pages : ℕ) (w w' : World E S) (r : Result (Unit {0}))
      → verify_group client group stream pages w ≡ some (r, w')
      → IsReady w
      → r ≡ ok tt
  unfolding verify_group
  verify_group-ready pages w w' r h k = ground arith

  create_stream-ready :
      (w : World E S) → IsReady w → (create_stream client group stream w).0 ≡ ok tt
  unfolding create_stream
  create_stream-ready w k = ground arith

  create_stream-Same : (w : World E S) → Same w (create_stream client group stream w).1
  unfolding create_stream
  create_stream-Same w = ground arith

  send_log_events-Same :
      (r : List InputLogEvent) (w : World E S)
      → ((send_log_events client group stream r w).log_events ≡ w.log_events)
        × ((send_log_events client group stream r w).arrivals ≡ w.arrivals)
        × ((send_log_events client group stream r w).requests ≡ w.requests ++ r ∷ [])
        × (IsReady w → IsReady (send_log_events client group stream r w))
  unfolding send_log_events
  send_log_events-Same r w = ground arith

  send_all_lem :
      (rs : List (List InputLogEvent)) (w : World E S)
      → ((send_all client group stream rs w).log_events ≡ w.log_events)
        × ((send_all client group stream rs w).arrivals ≡ w.arrivals)
        × ((send_all client group stream rs w).requests ≡ w.requests ++ rs)
        × (IsReady w → IsReady (send_all client group stream rs w))
  unfolding send_all
  send_all_lem [] w = (refl, refl, sym (append-nil w.requests), λ h. h)
  send_all_lem (r ∷ rs) w =
      let (q, c, s, k) = send_all_lem rs (send_log_events client group stream r w) in
      let (q', c', s', k') = send_log_events-Same r w in
      (
        q ∙ q',
        c ∙ c',
        s ∙ ap (λ l. l ++ rs) s' ∙ append_assoc w.requests (r ∷ []) rs,
        λ h. k (k' h),
      )

module _ {E S : Type 0} (to_string : E → List ℕ) where
  -- From `w` to `w'` the events `taken` have left the queue at its head, and they were sent in
  -- the requests `sent`.
  pub record Delivered (w w' : World E S) : Type 0 where
    pub taken : List E
    pub sent : List (List InputLogEvent)
    pub queue : pending w ≡ taken ++ pending w'
    pub requests : w'.requests ≡ w.requests ++ sent
    pub content : texts_of sent ≡ join (map to_string taken)
    pub within : All (λ r. request_size r ≤ max_request_size) sent

  pub Delivered-refl : (w : World E S) → Delivered w w
  Delivered-refl w = record {
    taken = [];
    sent = [];
    queue = refl;
    requests = sym (append-nil w.requests);
    content = refl;
    within = tt;
  }

  Delivered-trans : {u v w : World E S} → Delivered u v → Delivered v w → Delivered u w
  Delivered-trans {u} {w} a b = record {
    taken = a.taken ++ b.taken;
    sent = a.sent ++ b.sent;
    queue = a.queue ∙ ap (◌++◌ a.taken) b.queue ∙ sym (append_assoc a.taken b.taken (pending w));
    requests =
        b.requests ∙ ap (λ l. l ++ b.sent) a.requests ∙ append_assoc u.requests a.sent b.sent;
    content = rw texts_of-append (rw (a.content, b.content) (simp (map-append, join-append)));
    within = All-append (λ r. request_size r ≤ max_request_size) a.sent b.sent a.within b.within;
  }

  Same-Delivered : {w w' : World E S} → Same w w' → Delivered w w'
  Same-Delivered {w} {w'} s = record {
    taken = [];
    sent = [];
    queue = sym (simp (s.queue, s.coming));
    requests = s.sent ∙ sym (append-nil w.requests);
    content = refl;
    within = tt;
  }

  arrive_from-Delivered :
      (lists : List (List E)) (w : World E S)
      → w.arrivals ≡ lists
      → Delivered w (arrive_from lists w)
  arrive_from-Delivered [] w e = Delivered-refl w
  arrive_from-Delivered (events ∷ later) w e = record {
    taken = [];
    sent = [];
    queue = rw e (sym (append_assoc w.log_events events (join later)));
    requests = sym (append-nil w.requests);
    content = refl;
    within = tt;
  }

  arrive-Delivered : (w : World E S) → Delivered w (arrive w)
  unfolding arrive
  arrive-Delivered w = arrive_from-Delivered w.arrivals w refl
