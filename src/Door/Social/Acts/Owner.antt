-- ===== src/Door/Social/Acts/Owner.antt =====
-- Who may delete what (`request_deletion` of apps/door-api/src/door_api/social/service.py).
use doorboard.Prelude.{
  ℕ, ◌≡◌, refl, ap, ◌∙◌, String, Bool, true, false, ◌&&◌, not, Bool-cases, inl, inr, some, List, [],
  ◌∷◌, ◌==◌, str_eq,
}
use doorboard.Door.Social.RateLimit.{allow_both}
use doorboard.Door.Social.Store.{
  TargetKind, guestbook_target, poll_target, checkin_target, was_deleted, visitor, SocialStore,
  any_where, update_where, has_status, deleted, is_live_checkin, is_deletable_entry, delete_entry,
  delete_checkin, is_deletable_checkin, soft_delete_guestbook_entry, soft_delete_checkin,
}
use doorboard.Door.Social.Service.{
  SocialConfig, SocialService, Call, Outcome, rate_limited, not_found, unsupported_target, Step,
  limited, same_metrics, told, logged_if, delete_target, request_deletion,
}

-- Does a target of this kind and identifier belong to the session with this hash?
abbrev pub owns : TargetKind → ℕ → String → SocialStore → Bool
owns guestbook_target i key s =
    any_where (λ e. e.id == i && str_eq e.session_key_hash key) s.guestbook
owns checkin_target i key s = any_where (λ c. c.id == i && str_eq c.session_key_hash key) s.checkins
owns poll_target i key s = false

abbrev pub was_refused : Outcome → Bool
was_refused rate_limited = true
was_refused not_found = true
was_refused unsupported_target = true
was_refused _ = false

fewer {ℓ} :
    {A : Type ℓ} (p q : A → Bool) (xs : List A)
    → ((x : A) → q x ≡ false → p x ≡ false)
    → any_where q xs ≡ false
    → any_where p xs ≡ false
fewer p q [] h k = refl
fewer p q (x ∷ xs) h k = elim (Bool-cases (q x)) [
  | inl e ↦ absurd (cc (rw e at k))
  | inr e ↦ rw (h x e) (fewer p q xs h (rw e at k))
]

untouched {ℓ} :
    {A : Type ℓ} (p : A → Bool) (f : A → A) (xs : List A)
    → any_where p xs ≡ false
    → update_where p f xs ≡ xs
untouched p f [] h = refl
untouched p f (x ∷ xs) h = elim (Bool-cases (p x)) [
  | inl e ↦ absurd (cc (rw e at h))
  | inr e ↦ rw e (ap (λ r. x ∷ r) (untouched p f xs (rw e at h)))
]

middle_false : (a b c : Bool) → (a && c) ≡ false → (a && b && c) ≡ false
middle_false true true c h = h
middle_false true false c h = refl
middle_false false b c h = refl

-- Nothing is deleted, and nothing told.
record Refused (v : SocialService) (o : Step) : Type 0 where
  store : o.0.store ≡ v.store
  events : o.0.events ≡ v.events
  refused : was_refused o.1 ≡ true

module _ (f : SocialConfig) (c : Call) (i : ℕ) where
  not_there :
      (kind : TargetKind) (v : SocialService) (o : SocialStore × Bool)
      → o.0 ≡ v.store
      → o.1 ≡ false
      → Refused v (told kind i (logged_if c kind i was_deleted visitor v o))
  not_there kind v (s, true) h k = absurd (cc (k))
  not_there kind v (s, false) h k = record { store = h; events = refl; refused = refl }

  stranger :
      (kind : TargetKind) (v : SocialService)
      → owns kind i (f.hash_session_key c.session_token) v.store ≡ false
      → Refused v (told kind i (delete_target f c kind i visitor v))
  unfolding soft_delete_guestbook_entry soft_delete_checkin
  stranger guestbook_target v h =
      let key = some (f.hash_session_key c.session_token) in
      let none_found : any_where (is_deletable_entry i key) v.store.guestbook ≡ false =
        fewer (is_deletable_entry i key)
          (λ e. e.id == i && str_eq e.session_key_hash (f.hash_session_key c.session_token))
          v.store.guestbook (λ e k. middle_false (e.id == i) (not (has_status deleted e)) _ k) h in
      not_there guestbook_target v (soft_delete_guestbook_entry i c.at key v.store)
        (ap (λ g. record v.store { guestbook = g })
          (untouched (is_deletable_entry i key) (delete_entry c.at) v.store.guestbook none_found))
        none_found
  stranger checkin_target v h =
      let key = some (f.hash_session_key c.session_token) in
      let none_found : any_where (is_deletable_checkin i key) v.store.checkins ≡ false =
        fewer (is_deletable_checkin i key)
          (λ e. e.id == i && str_eq e.session_key_hash (f.hash_session_key c.session_token))
          v.store.checkins (λ e k. middle_false (e.id == i) (is_live_checkin e) _ k) h in
      not_there checkin_target v (soft_delete_checkin i c.at key v.store)
        (ap (λ g. record v.store { checkins = g })
          (untouched (is_deletable_checkin i key) (delete_checkin c.at) v.store.checkins
            none_found))
        none_found
  stranger poll_target v h = record { store = refl; events = refl; refused = refl }

  limited-Refused :
      (next : SocialService → Step) (v : SocialService)
      → ((w : SocialService) → w.store ≡ v.store → w.events ≡ v.events → Refused w (next w))
      → Refused v (limited f c same_metrics next v)
  limited-Refused next v h =
      let r = allow_both (f.hash_ip c.ip) c.session_token c.now v.limiter in
      let inner = h (record v { limiter = r.0 }) refl refl in
      elim (Bool-cases r.1) [
        | inl e ↦
            rw e (record { store = inner.store; events = inner.events; refused = inner.refused })
        | inr e ↦ rw e (record { store = refl; events = refl; refused = refl })
      ]

  -- A visitor's request to delete what does not belong to the hash of the visitor's session token
  -- deletes nothing: the tables, the moderation log among them, are as they were, no event is told,
  -- and the answer is that the target is not there, or not supported, or that the limit is reached.
  pub request_deletion-owner :
      (kind : TargetKind) (v : SocialService)
      → owns kind i (f.hash_session_key c.session_token) v.store ≡ false
      → ((request_deletion f c kind i visitor v).0.store ≡ v.store)
        × ((request_deletion f c kind i visitor v).0.events ≡ v.events)
        × (was_refused (request_deletion f c kind i visitor v).1 ≡ true)
  unfolding request_deletion
  request_deletion-owner guestbook_target v h =
      let o =
        limited-Refused
          (λ w. told guestbook_target i (delete_target f c guestbook_target i visitor w)) v
          (λ w e k.
            stranger guestbook_target w
              (ap (owns guestbook_target i (f.hash_session_key c.session_token)) e ∙ h)) in
      (o.store, o.events, o.refused)
  request_deletion-owner checkin_target v h =
      let o =
        limited-Refused (λ w. told checkin_target i (delete_target f c checkin_target i visitor w))
          v
          (λ w e k.
            stranger checkin_target w
              (ap (owns checkin_target i (f.hash_session_key c.session_token)) e ∙ h)) in
      (o.store, o.events, o.refused)
  request_deletion-owner poll_target v h = (refl, refl, refl)
