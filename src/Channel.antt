-- ===== src/Channel.antt =====
-- Buffered Go channels with one producer, as Subscription and EventSubscription use them. A send on
-- a closed channel and a second close panic; a send to a full channel under a lock blocks for good.
use windrunner.Prelude.{
  ℕ, ◌-◌, ◌≡◌, refl, Bool, true, false, List, [], ◌∷◌, ◌++◌, Option, none, some, ltb, length,
  if◌then◌else◌, arith,
}

pub data Health : Type 0 where
  fine panicked blocked : Health

pub record Channel {ℓ} (A : Type ℓ) : Type ℓ where
  pub queue : List A  -- oldest first
  pub capacity : ℕ
  pub closed : Bool
  pub health : Health

module _ {ℓ} {A : Type ℓ} where
  -- `make(chan A, n)`
  abbrev pub make : ℕ → Channel A
  make n = record { queue = []; capacity = n; closed = false; health = fine }

  abbrev pub has_room : Channel A → Bool
  has_room c = ltb (length c.queue) c.capacity

  -- `select { case c <- a: … default: … }`
  unfoldable pub try_send : Channel A → A → Channel A × Bool
  try_send c a =
      if c.closed
      then (record c { health = panicked }, false)
      else if has_room c
      then (record c { queue = c.queue ++ a ∷ [] }, true)
      else (c, false)

  -- `c <- a`
  unfoldable pub send : Channel A → A → Channel A
  send c a =
      if c.closed
      then record c { health = panicked }
      else if has_room c
      then record c { queue = c.queue ++ a ∷ [] }
      else record c { health = blocked }

  abbrev pub first_of_queue : List A → Option A
  first_of_queue [] = none
  first_of_queue (a ∷ later) = some a

  abbrev pub behind_first : List A → List A
  behind_first [] = []
  behind_first (a ∷ later) = later

  pub length-behind_first : (xs : List A) → length (behind_first xs) ≡ length xs - 1
  length-behind_first [] = refl
  length-behind_first (x ∷ xs) = omega arith

  -- `select { case <-c: default: }`
  unfoldable pub evict : Channel A → Channel A
  evict c = record c { queue = behind_first c.queue }

  -- `close(c)`
  unfoldable pub close : Channel A → Channel A
  close c = if c.closed then record c { health = panicked } else record c { closed = true }

  -- `a, ok := <-c` by the reader, where something is queued.
  unfoldable pub receive : Channel A → Option A × Channel A
  receive c = (first_of_queue c.queue, record c { queue = behind_first c.queue })
