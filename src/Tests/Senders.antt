-- ===== src/Tests/Senders.antt =====
-- src/ws/CAsyncs.cpp and src/ws/CChecker.cpp on a queue of three objects.
use a_nother_ws.Prelude.{ℕ, ◌≡◌, refl, List, [], ◌∷◌, some, none, true, false}
use a_nother_ws.Asyncs.{
  AsyncContext, Sender, check_connection, register_connection, unregister_connection, acquire_many,
}
use a_nother_ws.Asyncs.Acquire.{acquire_all_fails}
use a_nother_ws.Asyncs.Registry.{IsDistinct, HasSet, registry_is_set}

abbrev free_object : ℕ → AsyncContext
free_object id = record { id = id; context = none }

abbrev three_objects : List AsyncContext
three_objects = free_object 2 ∷ free_object 0 ∷ free_object 1 ∷ []

abbrev sender : Sender
sender = record { queue = three_objects; connections = 7 ∷ []; woken = []; written = [] }

two_connections-IsDistinct : IsDistinct (5 ∷ 7 ∷ [])
unfolding check_connection
two_connections-IsDistinct = (refl, (refl, tt))

acquire_all_fails_example : acquire_many 3 three_objects ≡ some (none, three_objects)
acquire_all_fails_example = acquire_all_fails three_objects

registry_is_set_example :
    HasSet (5 ∷ 7 ∷ []) 5 true (register_connection (5 ∷ 7 ∷ []) 5)
    × HasSet (5 ∷ 7 ∷ []) 5 false (unregister_connection (5 ∷ 7 ∷ []) 5)
registry_is_set_example = registry_is_set (5 ∷ 7 ∷ []) 5 two_connections-IsDistinct
