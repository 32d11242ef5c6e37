-- ===== src/Route/Calls.antt =====
-- include/beauty/route.hpp: the calls of the handler of a route, `std::get_if` and all. A member of the
-- handler is a function of it, which changes a state of type `S`.
use beauty_cl.Route.{Route, ws_handler, sse_handler}

module _ {J C M S : Type 0} where
  unfoldable pub connect : (C → S → S) → Route J C M → S → S
  connect on_connect r s = elim r.handler [ ws_handler h ↦ on_connect h s | _ ↦ s ]

  unfoldable pub receive : (C → S → S) → Route J C M → S → S
  receive on_receive r s = elim r.handler [ ws_handler h ↦ on_receive h s | _ ↦ s ]

  unfoldable pub disconnect : (C → S → S) → Route J C M → S → S
  disconnect on_disconnect r s = elim r.handler [ ws_handler h ↦ on_disconnect h s | _ ↦ s ]

  unfoldable pub sse_connect : (C → S → S) → Route J C M → S → S
  sse_connect on_connect r s = elim r.handler [ sse_handler h ↦ on_connect h s | _ ↦ s ]

  unfoldable pub sse_disconnect : (C → S → S) → Route J C M → S → S
  sse_disconnect on_disconnect r s = elim r.handler [ sse_handler h ↦ on_disconnect h s | _ ↦ s ]

  unfoldable pub sse_error : (C → S → S) → Route J C M → S → S
  sse_error on_error r s = elim r.handler [ sse_handler h ↦ on_error h s | _ ↦ s ]
