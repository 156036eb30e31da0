-- ===== src/Realtime/Delivery.antt =====
-- What a subscriber is handed: its own project's updates, in order, and always the latest
-- (apps/api/src/realtime/broker.ts).
use replay_bug.Common.{
  ◌≤◌, true, false, leb, ◌≡◌, ◌≢◌, refl, sym, ap, ◌∙◌, subst, inl, inr, List, [], ◌∷◌, ◌++◌, length,
  leb→le, arith, Bool-cases, append_assoc, append-nil, length-append,
}
use replay_bug.Realtime.Update.{ValidatedProjectUpdate}
use replay_bug.Realtime.Broker.{max_pending_per_subscriber, Subscriber, is_full, deliver}

pub deliver_all : List ValidatedProjectUpdate → Subscriber → Subscriber
deliver_all [] s = s
deliver_all (u ∷ us) s = deliver_all us (deliver u s)

-- What was dropped stands before what waits.
pub record Coalesced (before after : List ValidatedProjectUpdate) : Type 0 where
  pub dropped : List ValidatedProjectUpdate
  pub split : before ≡ dropped ++ after
  pub bounded : length after ≤ max_pending_per_subscriber
  pub latest : before ≢ [] → after ≢ []
  pub complete : length before ≤ max_pending_per_subscriber → dropped ≡ []

deliver-full :
    (u : ValidatedProjectUpdate) (s : Subscriber) → is_full s ≡ true → (deliver u s).queue ≡ u ∷ []
unfolding deliver
deliver-full u s e = ground arith

deliver-room :
    (u : ValidatedProjectUpdate) (s : Subscriber)
    → is_full s ≡ false
    → (deliver u s).queue ≡ s.queue ++ (u ∷ [])
unfolding deliver
deliver-room u s e = ground arith

split_full :
    (q : List ValidatedProjectUpdate) (us now d after : List ValidatedProjectUpdate)
    (u : ValidatedProjectUpdate)
    → now ≡ u ∷ []
    → now ++ us ≡ d ++ after
    → q ++ (u ∷ us) ≡ (q ++ d) ++ after
split_full q us now d after u e h =
    ap (λ xs. q ++ (xs ++ us)) (sym e) ∙ ap (λ xs. q ++ xs) h ∙ sym (append_assoc q d after)

too_long :
    (q us : List ValidatedProjectUpdate) (u : ValidatedProjectUpdate)
    → leb max_pending_per_subscriber (length q) ≡ true
    → ¬ (length (q ++ (u ∷ us)) ≤ max_pending_per_subscriber)
too_long q us u full k = ground (arith, length-append q (u ∷ us), leb→le _ _ full)

room_for :
    (s : Subscriber) (u : ValidatedProjectUpdate)
    → is_full s ≡ false
    → length (deliver u s).queue ≤ max_pending_per_subscriber
room_for s u room =
    ground (arith, ap length (deliver-room u s room), length-append s.queue (u ∷ []))

not_empty :
    (q us : List ValidatedProjectUpdate) (u : ValidatedProjectUpdate) → (q ++ (u ∷ [])) ++ us ≢ []
not_empty [] us u = λ h. cc
not_empty (x ∷ q) us u = λ h. cc

-- Of the updates that wait for a subscriber whose queue is within the bound, and those that are
-- delivered to it with no flush in between, what is left to wait is the end of that sequence: at
-- most `max_pending_per_subscriber` updates, not none
-- unless there were none, and all of them if they fit.
pub deliver_all-Coalesced :
    (us : List ValidatedProjectUpdate) (s : Subscriber)
    → length s.queue ≤ max_pending_per_subscriber
    → Coalesced (s.queue ++ us) (deliver_all us s).queue
unfolding deliver_all
deliver_all-Coalesced [] s h = record {
  dropped = [];
  split = append-nil s.queue;
  bounded = h;
  latest = λ n k. n (append-nil s.queue ∙ k);
  complete = λ _. refl;
}
deliver_all-Coalesced (u ∷ us) s h = elim (Bool-cases (is_full s)) [
  | inl full ↦
      let e = deliver-full u s full in
      let rest = deliver_all-Coalesced us (deliver u s) (omega (arith, ap length e)) in
      record {
        dropped = s.queue ++ rest.dropped;
        split = split_full s.queue us _ rest.dropped _ u e rest.split;
        bounded = rest.bounded;
        latest = λ n. rest.latest (λ k. not_empty [] us u (sym (ap (λ q. q ++ us) e) ∙ k));
        complete = λ k. absurd (too_long s.queue us u full k);
      }
  | inr room ↦
      let e = deliver-room u s room in
      let rest = deliver_all-Coalesced us (deliver u s) (room_for s u room) in
      record {
        dropped = rest.dropped;
        split = sym (append_assoc s.queue (u ∷ []) us) ∙ ap (λ q. q ++ us) (sym e) ∙ rest.split;
        bounded = rest.bounded;
        latest = λ n. rest.latest (λ k. not_empty s.queue us u (sym (ap (λ q. q ++ us) e) ∙ k));
        complete = λ k. rest.complete (
            subst (λ q. length q ≤ max_pending_per_subscriber)
              (sym (append_assoc s.queue (u ∷ []) us) ∙ ap (λ q. q ++ us) (sym e)) k);
      }
]
