-- ===== src/Time/Tests.antt =====
-- Runs of the clock's text at known instants.
use gdom.Base.{◌≡◌, refl}
use gdom.Time.{iso_text}

epoch : iso_text 0 ≡ "1970-01-01T00:00:00.000Z"
unfolding iso_text
epoch = refl

leap_day : iso_text 951782400123 ≡ "2000-02-29T00:00:00.123Z"
unfolding iso_text
leap_day = refl
