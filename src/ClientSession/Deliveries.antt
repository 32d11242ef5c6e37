-- ===== src/ClientSession/Deliveries.antt =====
-- src/session_client.hpp: what happened to the requests that were taken from the queue.
use beauty_cl.Prelude.{Bool, true, false}
use beauty_cl.ClientSession.{Callback, absent, ClientSession}

abbrev pub is_absent : Callback → Bool
is_absent absent = true
is_absent _ = false
