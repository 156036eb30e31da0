-- ===== src/Realtime/Isolation.antt =====
-- An update reaches the subscribers of its own project and no others
-- (apps/api/src/realtime/broker.ts, `handleNotification`).
use replay_bug.Common.{
  false, if◌then◌else◌, ◌≡◌, sym, ap, ◌∙◌, subst, some, List, [], ◌∷◌, map, arith, Bool-cases,
  Option-cases, inl, inr,
}
use replay_bug.Common.Text.{Text, text_eq, text_eq_refl, text_eq_sound}
use replay_bug.Realtime.Update.{ValidatedProjectUpdate}
use replay_bug.Realtime.Broker.{
  Subscriber, Subscribers, get, put, Broker, set_of, deliver, publish_to, publish,
}

get-put-own : (p : Text) (set : List Subscriber) (m : Subscribers) → get p (put p set m) ≡ some set
unfolding get put
get-put-own p set [] = ground (arith, text_eq_refl p)
get-put-own p set ((k, old) ∷ rest) = ground (arith, get-put-own p set rest)

get-put-other :
    (p q : Text) (set : List Subscriber) (m : Subscribers)
    → text_eq p q ≡ false
    → get q (put p set m) ≡ get q m
unfolding get put
get-put-other p q set [] h = ground arith
get-put-other p q set ((k, old) ∷ rest) h = elim (Bool-cases (text_eq k p)) [
  | inl same ↦
      let e : text_eq k q ≡ false = ap (λ t. text_eq t q) (text_eq_sound k p same) ∙ h in
      ground (arith, e)
  | inr other ↦ ground (arith, get-put-other p q set rest h)
]

publish-own :
    (b : Broker) (u : ValidatedProjectUpdate)
    → set_of (get u.project_id (publish b u).subscribers)
      ≡ map (deliver u) (set_of (get u.project_id b.subscribers))
unfolding publish publish_to
publish-own b u = elim (Option-cases (get u.project_id b.subscribers)) [
  | inl e ↦
      ap (λ o. set_of (get u.project_id (publish_to b u o).subscribers)) e
      ∙ ap set_of e
      ∙ sym (ap (λ o. map (deliver u) (set_of o)) e)
  | inr (set, e) ↦
      ap (λ o. set_of (get u.project_id (publish_to b u o).subscribers)) e
      ∙ ap set_of (get-put-own u.project_id (map (deliver u) set) b.subscribers)
      ∙ sym (ap (λ o. map (deliver u) (set_of o)) e)
]

publish-other :
    (b : Broker) (u : ValidatedProjectUpdate) (q : Text)
    → text_eq u.project_id q ≡ false
    → get q (publish b u).subscribers ≡ get q b.subscribers
unfolding publish publish_to
publish-other b u q h = elim (Option-cases (get u.project_id b.subscribers)) [
  | inl e ↦ ap (λ o. get q (publish_to b u o).subscribers) e
  | inr (set, e) ↦
      ap (λ o. get q (publish_to b u o).subscribers) e
      ∙ get-put-other u.project_id q (map (deliver u) set) b.subscribers h
]

-- What a project's subscribers are after an update: the update is delivered to each of them if it
-- is their project's, and they are as before if it is another's.
pub publish-get :
    (b : Broker) (u : ValidatedProjectUpdate) (q : Text)
    → set_of (get q (publish b u).subscribers) ≡ (
        if text_eq u.project_id q
        then map (deliver u) (set_of (get q b.subscribers))
        else set_of (get q b.subscribers))
publish-get b u q = elim (Bool-cases (text_eq u.project_id q)) [
  | inl same ↦
      let e = text_eq_sound u.project_id q same in
      let own =
        subst
          (λ t.
            set_of (get t (publish b u).subscribers)
            ≡ map (deliver u) (set_of (get t b.subscribers)))
          e (publish-own b u) in
      ground (arith, own)
  | inr other ↦ ground (arith, publish-other b u q other)
]
