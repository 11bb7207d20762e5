-- ===== src/Door/Social/Acts/Final.antt =====
-- A closed poll (apps/door-api/src/door_api/social).
use doorboard.Prelude.{ℕ, ◌≡◌, true, false, ◌&&◌, ◌==◌}
use doorboard.Door.Social.Store.{any_where, is_open, count_votes}
use doorboard.Door.Social.Service.{SocialService}

-- The poll `i` is there and closed, and the option `o` of it has `n` votes.
pub record IsFinal (i o n : ℕ) (v : SocialService) : Type 0 where
  pub exists : any_where (λ p. p.id == i) v.store.polls ≡ true
  pub shut : any_where (λ p. p.id == i && is_open p) v.store.polls ≡ false
  pub tally : count_votes i o v.store.poll_votes ≡ n
