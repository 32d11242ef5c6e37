-- ===== src/Sha1/Tests.antt =====
-- Known digests.
use beauty_cl.Prelude.{◌≡◌, refl, codes}
use beauty_cl.Sha1.{runs, reset, update, final}

digest_abc :
    (final (update (codes "abc") reset)).0 ≡ codes "a9993e364706816aba3e25717850c26c9cd0d89d"
unfolding runs
digest_abc = refl
