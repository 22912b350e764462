-- ===== src/Hub/Attached.antt =====
-- The set that output goes to, against the subscriptions that are not done.
use windrunner.Prelude.{ℕ, ◌≡◌, refl, ◌∙◌, ◌⊎◌, true, false, List, [], ◌∷◌, if◌then◌else◌, arith}
use windrunner.Channel
use windrunner.Channel.{Channel, fine}
use windrunner.Hub.Invariant.{IsSound, AllSound, delivered, cell-deliver, deliver-AllSound}
use windrunner.Hub.Sets.{member-remove, IsDistinct, remove-IsDistinct}
use windrunner.Hub.{Message, Subscription, Hub, member, remove, deliver, deliver_each, deliver_all}

pub record IsAttached (hub : Hub) : Type 0 where
  pub sound : AllSound hub
  pub attached : (i : ℕ) → (hub.cell i).done ≡ false → member i hub.subs ≡ true
  pub distinct : IsDistinct hub.subs

-- `deliver` takes from the set only a subscription that is done by then.
deliver_subs :
    (message : Message) (i : ℕ) (hub : Hub)
    → ((deliver message i hub).subs ≡ hub.subs)
      ⊎ (((deliver message i hub).subs ≡ remove i hub.subs)
          × (((deliver message i hub).cell i).done ≡ true))
unfolding deliver Channel.try_send
deliver_subs message i hub = ground arith

pub delivered_done :
    (message : Message) (sub : Subscription)
    → (delivered message sub).done ≡ false
    → sub.done ≡ false
unfolding delivered
delivered_done message sub h = ground arith

deliver_done :
    (message : Message) (i j : ℕ) (hub : Hub)
    → IsSound (hub.cell i)
    → ((deliver message i hub).cell j).done ≡ false
    → (hub.cell j).done ≡ false
deliver_done message i j hub s h =
    ground (arith, cell-deliver message i j hub s, delivered_done message (hub.cell i))

deliver-IsAttached :
    (message : Message) (i : ℕ) (hub : Hub) → IsAttached hub → IsAttached (deliver message i hub)
deliver-IsAttached message i hub a = record {
  sound = deliver-AllSound message i hub a.sound;
  attached = λ j open_still. ground (
    arith,
    deliver_subs message i hub,
    deliver_done message i j hub (a.sound i) open_still,
    a.attached j,
    member-remove j i hub.subs,
  );
  distinct = ground (arith, deliver_subs message i hub, a.distinct, remove-IsDistinct i hub.subs);
}

pub deliver_each-IsAttached :
    (message : Message) (is : List ℕ) (hub : Hub)
    → IsAttached hub
    → IsAttached (deliver_each message is hub)
unfolding deliver_each
deliver_each-IsAttached message [] hub a = a
deliver_each-IsAttached message (i ∷ is) hub a =
    deliver_each-IsAttached message is (deliver message i hub) (deliver-IsAttached message i hub a)

-- A broadcast delivers once to each subscription in the set, and to no other.
cell-deliver_each :
    (message : Message) (is : List ℕ) (j : ℕ) (hub : Hub)
    → AllSound hub
    → IsDistinct is
    → (deliver_each message is hub).cell j
      ≡ (if member j is then delivered message (hub.cell j) else hub.cell j)
unfolding deliver_each member
cell-deliver_each message [] j hub s d = refl
cell-deliver_each message (i ∷ is) j hub s d =
    cell-deliver_each message is j (deliver message i hub) (deliver-AllSound message i hub s) d.1
    ∙ rw (cell-deliver message i j hub (s i)) (ground (arith, d.0))

pub cell-deliver_all :
    (message : Message) (j : ℕ) (hub : Hub)
    → IsAttached hub
    → (deliver_all message hub).cell j
      ≡ (if member j hub.subs then delivered message (hub.cell j) else hub.cell j)
unfolding deliver_all
cell-deliver_all message j hub a = cell-deliver_each message hub.subs j hub a.sound a.distinct

pub deliver_all-IsAttached :
    (message : Message) (hub : Hub) → IsAttached hub → IsAttached (deliver_all message hub)
unfolding deliver_all
deliver_all-IsAttached message hub a = deliver_each-IsAttached message hub.subs hub a
