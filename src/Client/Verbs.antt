-- ===== src/Client/Verbs.antt =====
-- include/beauty/client.hpp: the verbs without a duration, or with one in seconds, of the type `T`.
use beauty_cl.Prelude.{ℕ, Bool, Option, [], Bytes}
use beauty_cl.ClientSession.{ClientSession}
use beauty_cl.Client.{
  Client, get_before, get_before_cb, del_before, del_before_cb, post_before, post_before_cb,
  patch_before, patch_before_cb, put_before, put_before_cb,
}

-- `to_duration` is the conversion of seconds to milliseconds.
module _ {E R T : Type 0} (has_openssl : Bool) (bad_address timed_out : E) (user_agent : Bytes)
    (set_host_name : Bytes → Option E) (to_duration : T → ℕ) where
  unfoldable pub get_cb : Bytes → Client E R → Client E R × Option E
  get_cb url c = get_before_cb has_openssl bad_address timed_out user_agent set_host_name 0 url c

  unfoldable pub get_seconds_cb : T → Bytes → Client E R → Client E R × Option E
  get_seconds_cb seconds url c =
      get_before_cb has_openssl bad_address timed_out user_agent set_host_name (to_duration seconds)
        url c

  unfoldable pub del_cb : Bytes → Bytes → Client E R → Client E R × Option E
  del_cb url body c =
      del_before_cb has_openssl bad_address timed_out user_agent set_host_name 0 url body c

  unfoldable pub del_empty_cb : Bytes → Client E R → Client E R × Option E
  del_empty_cb url c =
      del_before_cb has_openssl bad_address timed_out user_agent set_host_name 0 url [] c

  unfoldable pub del_seconds_cb : T → Bytes → Bytes → Client E R → Client E R × Option E
  del_seconds_cb seconds url body c =
      del_before_cb has_openssl bad_address timed_out user_agent set_host_name (to_duration seconds)
        url body c

  unfoldable pub del_seconds_empty_cb : T → Bytes → Client E R → Client E R × Option E
  del_seconds_empty_cb seconds url c =
      del_before_cb has_openssl bad_address timed_out user_agent set_host_name (to_duration seconds)
        url [] c

  unfoldable pub post_cb : Bytes → Bytes → Client E R → Client E R × Option E
  post_cb url body c =
      post_before_cb has_openssl bad_address timed_out user_agent set_host_name 0 url body c

  unfoldable pub post_empty_cb : Bytes → Client E R → Client E R × Option E
  post_empty_cb url c =
      post_before_cb has_openssl bad_address timed_out user_agent set_host_name 0 url [] c

  unfoldable pub post_seconds_cb : T → Bytes → Bytes → Client E R → Client E R × Option E
  post_seconds_cb seconds url body c =
      post_before_cb has_openssl bad_address timed_out user_agent set_host_name
        (to_duration seconds) url body c

  unfoldable pub post_seconds_empty_cb : T → Bytes → Client E R → Client E R × Option E
  post_seconds_empty_cb seconds url c =
      post_before_cb has_openssl bad_address timed_out user_agent set_host_name
        (to_duration seconds) url [] c

  unfoldable pub patch_cb : Bytes → Bytes → Client E R → Client E R × Option E
  patch_cb url body c =
      patch_before_cb has_openssl bad_address timed_out user_agent set_host_name 0 url body c

  unfoldable pub patch_empty_cb : Bytes → Client E R → Client E R × Option E
  patch_empty_cb url c =
      patch_before_cb has_openssl bad_address timed_out user_agent set_host_name 0 url [] c

  unfoldable pub patch_seconds_cb : T → Bytes → Bytes → Client E R → Client E R × Option E
  patch_seconds_cb seconds url body c =
      patch_before_cb has_openssl bad_address timed_out user_agent set_host_name
        (to_duration seconds) url body c

  unfoldable pub patch_seconds_empty_cb : T → Bytes → Client E R → Client E R × Option E
  patch_seconds_empty_cb seconds url c =
      patch_before_cb has_openssl bad_address timed_out user_agent set_host_name
        (to_duration seconds) url [] c

  unfoldable pub put_cb : Bytes → Bytes → Client E R → Client E R × Option E
  put_cb url body c =
      put_before_cb has_openssl bad_address timed_out user_agent set_host_name 0 url body c

  unfoldable pub put_seconds_cb : T → Bytes → Bytes → Client E R → Client E R × Option E
  put_seconds_cb seconds url body c =
      put_before_cb has_openssl bad_address timed_out user_agent set_host_name (to_duration seconds)
        url body c

  module _ (loop : Bool → ClientSession E R → ClientSession E R × Option E) where
    unfoldable pub get : Bytes → Option E × Option R
    get url = get_before has_openssl bad_address timed_out user_agent set_host_name loop 0 url

    unfoldable pub get_seconds : T → Bytes → Option E × Option R
    get_seconds seconds url =
        get_before has_openssl bad_address timed_out user_agent set_host_name loop
          (to_duration seconds) url

    unfoldable pub del : Bytes → Bytes → Option E × Option R
    del url body =
        del_before has_openssl bad_address timed_out user_agent set_host_name loop 0 url body

    unfoldable pub del_seconds : T → Bytes → Bytes → Option E × Option R
    del_seconds seconds url body =
        del_before has_openssl bad_address timed_out user_agent set_host_name loop
          (to_duration seconds) url body

    unfoldable pub post : Bytes → Bytes → Option E × Option R
    post url body =
        post_before has_openssl bad_address timed_out user_agent set_host_name loop 0 url body

    unfoldable pub post_seconds : T → Bytes → Bytes → Option E × Option R
    post_seconds seconds url body =
        post_before has_openssl bad_address timed_out user_agent set_host_name loop
          (to_duration seconds) url body

    unfoldable pub patch : Bytes → Bytes → Option E × Option R
    patch url body =
        patch_before has_openssl bad_address timed_out user_agent set_host_name loop 0 url body

    unfoldable pub patch_seconds : T → Bytes → Bytes → Option E × Option R
    patch_seconds seconds url body =
        patch_before has_openssl bad_address timed_out user_agent set_host_name loop
          (to_duration seconds) url body

    unfoldable pub put : Bytes → Bytes → Option E × Option R
    put url body =
        put_before has_openssl bad_address timed_out user_agent set_host_name loop 0 url body

    unfoldable pub put_seconds : T → Bytes → Bytes → Option E × Option R
    put_seconds seconds url body =
        put_before has_openssl bad_address timed_out user_agent set_host_name loop
          (to_duration seconds) url body
