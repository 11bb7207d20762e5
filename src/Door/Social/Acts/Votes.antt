-- ===== src/Door/Social/Acts/Votes.antt =====
-- One vote for each session and poll (apps/door-api/src/door_api/social).
use doorboard.Prelude.{
  ℕ, ◌≡◌, refl, ap, ◌∙◌, sym, String, Bool, true, false, ◌&&◌, Bool-cases, inl, inr, List, [], ◌∷◌,
  ◌++◌, length, length-append, All, All-append, ◌==◌, str_eq, eq_iff, arith, if◌then◌else◌,
}
use doorboard.Door.Social.Store.{PollOption, Vote, any_where, is_vote, option_rows, insert_poll}
use doorboard.Door.Social.Service.{SocialConfig, SocialService}
use doorboard.Door.Social.Acts.{Act, act, act_all, ballot, Closed, OnPoll, act_keeps}

pub any_where-append {ℓ} :
    {A : Type ℓ} (p : A → Bool) (xs ys : List A)
    → any_where p (xs ++ ys) ≡ (if any_where p xs then true else any_where p ys)
any_where-append p [] ys = refl
any_where-append p (x ∷ xs) ys = elim (Bool-cases (p x)) [
  | inl e ↦ rw e refl
  | inr e ↦ rw e (any_where-append p xs ys)
]

pub any_where-left {ℓ} :
    {A : Type ℓ} (p : A → Bool) (xs ys : List A)
    → any_where p xs ≡ true
    → any_where p (xs ++ ys) ≡ true
any_where-left p xs ys h = any_where-append p xs ys ∙ ap (λ b. if b then true else any_where p ys) h

-- No two votes have the same poll and the same session.
abbrev pub NoTwo : List Vote → Type 0
NoTwo [] = Unit
NoTwo (v ∷ vs) = (any_where (is_vote v.poll_id v.session_token) vs ≡ false) × NoTwo vs

-- The option that a vote is for is one of its poll.
abbrev pub IsOffered : List PollOption → Vote → Type 0
IsOffered os v = any_where (λ o. o.id == v.option_id && o.poll_id == v.poll_id) os ≡ true

pub record Tallied (v : SocialService) : Type 0 where
  pub once : NoTwo v.store.poll_votes
  pub counted : v.metrics.poll_votes_cast ≡ length v.store.poll_votes
  pub offered : All (IsOffered v.store.poll_options) v.store.poll_votes

str_eq-swap : (a b : String) → str_eq a b ≡ false → str_eq b a ≡ false
str_eq-swap a b h = elim (Bool-cases (str_eq b a)) [
  | inl e ↦ absurd (cc (h, (eq_iff a b).1 (sym ((eq_iff b a).0 e))))
  | inr e ↦ e
]

is_vote-swap :
    (v b : Vote)
    → is_vote b.poll_id b.session_token v ≡ false
    → is_vote v.poll_id v.session_token b ≡ false
is_vote-swap v b h = elim (Bool-cases (v.poll_id == b.poll_id)) [
  | inr e ↦ let other : (b.poll_id == v.poll_id) ≡ false = ground arith in rw other refl
  | inl e ↦
      let other : (b.poll_id == v.poll_id) ≡ true = ground arith in
      rw other (str_eq-swap v.session_token b.session_token (rw e at h))
]

snoc-NoTwo :
    (vs : List Vote) (b : Vote)
    → any_where (is_vote b.poll_id b.session_token) vs ≡ false
    → NoTwo vs
    → NoTwo (vs ++ b ∷ [])
snoc-NoTwo [] b h t = (refl, tt)
snoc-NoTwo (v ∷ vs) b h t = elim (Bool-cases (is_vote b.poll_id b.session_token v)) [
  | inl e ↦ absurd (cc (rw e at h))
  | inr e ↦
      let last : any_where (is_vote v.poll_id v.session_token) (b ∷ []) ≡ false =
        rw (is_vote-swap v b e) refl in
      (
        any_where-append (is_vote v.poll_id v.session_token) vs (b ∷ []) ∙ rw t.0 last,
        snoc-NoTwo vs b (rw e at h) t.1,
      )
]

more_options :
    (os more : List PollOption) (vs : List Vote)
    → All (IsOffered os) vs
    → All (IsOffered (os ++ more)) vs
more_options os more [] h = tt
more_options os more (v ∷ vs) h = (
  any_where-left (λ o. o.id == v.option_id && o.poll_id == v.poll_id) os more h.0,
  more_options os more vs h.1,
)

same_tally :
    (v w : SocialService)
    → w.store.poll_votes ≡ v.store.poll_votes
    → w.store.poll_options ≡ v.store.poll_options
    → w.metrics.poll_votes_cast ≡ v.metrics.poll_votes_cast
    → Tallied v
    → Tallied w
same_tally v w a b c h = record {
  once = rw a h.once;
  counted = rw (a, c) h.counted;
  offered = rw (a, b) h.offered;
}

Tallied-Closed : Closed Tallied
Tallied-Closed = record {
  on_limiter = λ r v h. same_tally v _ refl refl refl h;
  on_events = λ es v h. same_tally v _ refl refl refl h;
  on_metrics = λ m v e h. same_tally v (record v { metrics = m }) refl refl e h;
  on_guestbook = λ g v h. same_tally v _ refl refl refl h;
  on_checkins = λ cs v h. same_tally v _ refl refl refl h;
  on_log = λ ls v h. same_tally v _ refl refl refl h;
  on_close = λ i at v h. same_tally v _ refl refl refl h;
  on_vote = λ poll token option at p v found is_on offered new h. record {
    once = snoc-NoTwo v.store.poll_votes (ballot poll token option at) new h.once;
    counted =
        omega
          (arith, h.counted, length-append v.store.poll_votes (ballot poll token option at ∷ []));
    offered =
        All-append (IsOffered v.store.poll_options) v.store.poll_votes
          (ballot poll token option at ∷ []) h.offered (offered, tt);
  };
}

Tallied-OnPoll : (i : ℕ) → OnPoll Tallied i
unfolding insert_poll
Tallied-OnPoll i question options at v h = record {
  once = h.once;
  counted = h.counted;
  offered =
      more_options v.store.poll_options (option_rows i 0 options) v.store.poll_votes h.offered;
}

-- Whatever visitors and moderators do, in every order: no session has two votes in one poll, every
-- vote is for an option of its poll, and the metric of votes cast is the number of votes stored.
pub act_all-Tallied :
    (f : SocialConfig) (acts : List Act) (v : SocialService)
    → Tallied v
    → Tallied (act_all f acts v)
act_all-Tallied f [] v h = h
act_all-Tallied f (a ∷ more) v h =
    act_all-Tallied f more (act f a v)
      (act_keeps f Tallied Tallied-Closed a v (λ i e. Tallied-OnPoll i) h)
