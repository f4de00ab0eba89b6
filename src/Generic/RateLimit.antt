-- ===== src/Generic/RateLimit.antt =====
-- src/generic/rate-limit/redis-throttler.storage.ts: a sliding window over the calls of a key, kept in a sorted set of Redis by a
-- script that runs as one step. Times are milliseconds of Redis's clock; a member of the set is a fresh UUID, so that
-- only its score is kept here. A key is a number.
use marketplace_api_v.Common.{
  ℕ, ◌+◌, ◌-◌, ◌/◌, Bool, true, false, not, Option, none, some, List, [], ◌∷◌, ltb, leb,
  if◌then◌else◌, keep, length, Table, lookup, put,
}

-- The sorted set under a key, oldest score first, and the time at which Redis drops the key.
pub record Window : Type 0 where
  pub hits : List ℕ
  pub expires_at : ℕ

-- `ThrottlerStorageRecord`
pub record StorageRecord : Type 0 where
  pub total_hits : ℕ
  pub time_to_expire : ℕ
  pub is_blocked : Bool
  pub time_to_block_expire : ℕ

-- What the script returns: `{allowed, ZCARD, windowLeft}`, or an error where the set is empty and `oldest[2]` is nil.
pub data ScriptReply : Type 0 where
  script_error : ScriptReply
  counted : Bool → ℕ → ℕ → ScriptReply

-- What Redis still holds of the key.
abbrev pub current : ℕ → Option Window → List ℕ
current now none = []
current now (some w) = if ltb now w.expires_at then w.hits else []

-- `ZREMRANGEBYSCORE key -inf (now - window)`
abbrev pub is_recent : ℕ → ℕ → ℕ → Bool
is_recent window now score = ltb now (score + window)

unfoldable pub trim : ℕ → ℕ → List ℕ → List ℕ
trim window now hits = keep (is_recent window now) hits

-- `ZADD key now member`
unfoldable pub add_score : ℕ → List ℕ → List ℕ
add_score score [] = score ∷ []
add_score score (s ∷ hits) = if ltb score s then score ∷ s ∷ hits else s ∷ add_score score hits

abbrev pub reply_of : ℕ → ℕ → Bool → List ℕ → ScriptReply
reply_of window now allowed [] = script_error
reply_of window now allowed (oldest ∷ hits) =
    counted allowed (length (oldest ∷ hits)) (oldest + window - now)

-- The time at which the key would be dropped stays, if it is set.
abbrev pub expiry_of : Option Window → ℕ
expiry_of none = 0
expiry_of (some w) = w.expires_at

-- What the script decides and writes once the old scores are gone.
abbrev pub decide_hit : ℕ → ℕ → ℕ → ℕ → List ℕ → ScriptReply × Window
decide_hit window limit now expiry hits =
    if ltb (length hits) limit
    then (
      reply_of window now true (add_score now hits),
      record { hits = add_score now hits; expires_at = now + window },
    )
    else (reply_of window now false hits, record { hits = hits; expires_at = expiry })

-- `slidingWindowScript`
unfoldable pub sliding_window : ℕ → ℕ → ℕ → Option Window → ScriptReply × Window
sliding_window window limit now o =
    decide_hit window limit now (expiry_of o) (trim window now (current now o))

-- `Math.max(1, Math.ceil(windowLeftMs / 1000))`
abbrev pub seconds_left : ℕ → ℕ
seconds_left ms = let s = (ms + 999) / 1000 in if leb s 1 then 1 else s

abbrev pub to_record : ScriptReply → Option StorageRecord
to_record script_error = none
to_record (counted allowed total left) = some (record {
  total_hits = if allowed then total else total + 1;
  time_to_expire = seconds_left left;
  is_blocked = not allowed;
  time_to_block_expire = if allowed then 0 else seconds_left left;
})

-- `increment`: none where it throws.
unfoldable pub increment : ℕ → ℕ → ℕ → ℕ → Table Window → Option StorageRecord × Table Window
increment window limit key now store =
    let (reply, w) = sliding_window window limit now (lookup key store) in
    (to_record reply, put key w store)
