-- ===== src/Tests/Clients.antt =====
-- SIMe at 1, a server at 2 below it, and a client at 3 on that server.
use efnet_services.Common.{
  update_self, ℕ, ◌≡◌, refl, inl, inr, ◌≤◌, ◌==◌, if◌then◌else◌, Bool, true, false, some, [], ◌∷◌,
  Avoids, update, arith, In, subst, ==→eq, eq→==, Bool-cases,
}
use efnet_services.Run.{Text}
use efnet_services.Tests.Network.{same_text}
use efnet_services.Network.Starts.{no_view, first_net-Whole}
use efnet_services.Network.Steps.{first_net}
use efnet_services.Clients.{World}
use efnet_services.Clients.Lists.{siclient_add, hash_add, sihash_compute_client}
use efnet_services.Clients.Search.{siclient_find, siclient_change_nick}
use efnet_services.Network.{ok}
use efnet_services.Clients.Rename.{renamed, siclient_change_nick-Formed}
use efnet_services.Clients.Named.{Named, Finds, slot_of, siclient_find-Finds}
use efnet_services.Clients.Free.{siclient_free}
use efnet_services.Clients.Formed.{View, Formed}
use efnet_services.Clients.Start.{sihash_init, only_me, sihash_init-Formed}
use efnet_services.Clients.Typed.{typed-Formed}
use efnet_services.Clients.Add.{with_client, siclient_add-Formed}
use efnet_services.Clients.Split.{Splits, siclient_free-Splits}

abbrev as_is : ℕ → ℕ
as_is c = c

abbrev never : Text → Text → Bool
never a b = false

abbrev height : ℕ → ℕ
height x = if x == 1 then 0 else if x == 2 then 1 else 2

abbrev my_name : Text
my_name = b's' ∷ []

abbrev typed : ℕ → ℕ → World → World
typed c k w = record w { people = record w.people { c_type = update w.people.c_type c k } }

abbrev start_world : World
start_world = sihash_init as_is 1 my_name 100 first_net

abbrev start_lists : View
start_lists = only_me as_is height 1 my_name 100 first_net

abbrev with_server : World
with_server = siclient_add as_is 0 2 101 (typed 2 1 start_world)

abbrev server_lists : View
server_lists = with_client as_is height 0 2 101 (typed 2 1 start_world) start_lists

abbrev with_both : World
with_both = siclient_add as_is 2 3 102 with_server

abbrev both_lists : View
both_lists = with_client as_is height 2 3 102 with_server server_lists

start-Formed : Formed height [] start_world.people start_lists
start-Formed = sihash_init-Formed as_is height 1 my_name 100 first_net (omega arith)

Avoids-start : (b : Bool) → Avoids 2 (start_lists.all b)
Avoids-start true = (omega arith, tt)
Avoids-start false = tt

typed_start-Formed : Formed height [] (typed 2 1 start_world).people start_lists
typed_start-Formed =
    typed-Formed height start_world.people start_lists 2 1 start-Formed Avoids-start

server-Formed : Formed height [] with_server.people server_lists
unfolding sihash_init siclient_add hash_add
server-Formed =
    siclient_add-Formed as_is height 0 2 101 (typed 2 1 start_world) start_lists typed_start-Formed
      (omega arith) Avoids-start (omega arith) (inl refl, inr refl) (omega arith) (omega arith)
      (omega arith) (omega arith)

both-Formed : Formed height [] with_both.people both_lists
unfolding sihash_init siclient_add hash_add
both-Formed =
    siclient_add-Formed as_is height 2 3 102 with_server server_lists server-Formed (omega arith)
      avoids (omega arith) (inl refl, inl refl) (omega arith) (omega arith) (omega arith)
      (omega arith)
  where
    avoids : (b : Bool) → Avoids 3 (server_lists.all b)
    avoids true = (omega arith, tt)
    avoids false = (omega arith, tt)

siclient_add-Formed_example : Formed height [] with_server.people server_lists
unfolding sihash_init siclient_add hash_add
siclient_add-Formed_example =
    siclient_add-Formed as_is height 0 2 101 (typed 2 1 start_world) start_lists typed_start-Formed
      (omega arith) Avoids-start (omega arith) (inl refl, inr refl) (omega arith) (omega arith)
      (omega arith) (omega arith)

height_two : (x : ℕ) → height x ≤ 2
height_two x = ground arith

all_quiet : (x : ℕ) → Unit {0} → (with_both.people.conn x ≡ 0) × (with_both.people.jupe x ≡ false)
unfolding sihash_init siclient_add hash_add
all_quiet x k = (refl, refl)

siclient_free-Splits_example :
    (r : World) × (u : View) × (siclient_free never 2 2 with_both ≡ some r)
    × Splits as_is never height with_both.people.conn with_both.people.parent with_both.people.jupe
        (λ x. Unit)
        all_quiet
        (λ x y k e. tt)
        2
        2
        both_lists
        r
        u
unfolding sihash_init siclient_add hash_add
siclient_free-Splits_example =
    siclient_free-Splits as_is never height with_both.people.conn with_both.people.parent
      with_both.people.jupe (λ x. Unit) all_quiet (λ x y k e. tt) 2 height_two 2 with_both
      both_lists 2 false both-Formed (record { conn_is = refl; parent_is = refl; jupe_is = refl })
      (no_view as_is never, first_net-Whole as_is never) (inl refl) (omega arith) tt (omega arith)

start-Named : Named as_is start_world.people start_lists
unfolding sihash_init siclient_add hash_add
start-Named k c i = elim (Bool-cases (k == slot_of as_is my_name)) [
  | inr n ↦ absurd (subst (λ b. In c (if b then 1 ∷ [] else [])) n i)
  | inl y ↦
      own (==→eq k (slot_of as_is my_name) y) (subst (λ b. In c (if b then 1 ∷ [] else [])) y i)
]
  where
    own :
        k ≡ slot_of as_is my_name
        → In c (1 ∷ [])
        → (start_world.people.hashv c ≡ sihash_compute_client as_is (start_world.people.name c))
          × (k ≡ slot_of as_is (start_world.people.name c))
    own e (inl f) = rw (eq→== c 1 f) (refl, e)
    own e (inr j) = absurd j

siclient_find-Finds_example :
    (r : ℕ) × (siclient_find as_is same_text never my_name start_world.people ≡ some r)
    × Finds as_is same_text never height my_name start_world.people start_lists r
siclient_find-Finds_example =
    siclient_find-Finds as_is same_text never height my_name start_world.people start_lists
      start-Formed start-Named

abbrev other_name : Text
other_name = b't' ∷ []

siclient_change_nick-Formed_example :
    ((siclient_change_nick as_is true 1 other_name start_world.people).0 ≡ ok)
    × Formed height []
        (siclient_change_nick as_is true 1 other_name start_world.people).1
        (renamed as_is height start_world.people start_lists 1 other_name [] [])
    × Named as_is
        (siclient_change_nick as_is true 1 other_name start_world.people).1
        (renamed as_is height start_world.people start_lists 1 other_name [] [])
unfolding sihash_init siclient_add hash_add
siclient_change_nick-Formed_example =
    siclient_change_nick-Formed as_is height start_world.people start_lists 1 other_name [] []
      start-Formed in_bucket (omega arith) start-Named
  where
    in_bucket : start_lists.bucket (start_world.people.hv 1) ≡ 1 ∷ []
    in_bucket = update_self (λ k. []) (slot_of as_is my_name) (1 ∷ [])
