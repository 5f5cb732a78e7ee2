-- ===== src/Lib.antt =====
-- GolfRank: the ranking of golf courses and the limits on its service (services/api/app).
--
-- The service is a FastAPI application over one SQL database and one Redis. Its handlers read and
-- write the database inside one transaction, and guards that run before a handler ask Redis whether
-- the request may pass. The ranking, the rounds, the social graph with its feed, the lookups that they
-- use, the photos of courses, the limiter and the lock are modelled here.
--
-- The ranking (services/api/app/ranking.py). A user puts courses into tiers (`place_in_tiers`) and
-- answers which of two courses of a tier is better (`compare_courses`). Both write the positions of
-- the rows of `tier_assignments` (models.py), and every write ends with `_normalize_positions`, from
-- whose list `_rating` computes the scores.
--   * Ranking/Tier.antt and Ranking/Rating.antt: `TIER_ORDER`, `TIER_BANDS` and `_rating`. A score is
--     counted in tenths of a point and computed as one quotient of whole numbers, which a `Rounding`
--     rounds; Base/Rounding.antt says what is asked of it and gives Python's rule as an instance.
--   * Ranking/Table.antt: the table as the list of its rows, the query of a tier in the order of
--     position and id, and the loop that writes positions. A row is known by its id, so that a change
--     of the object that a query answered is a change of the row with that id; the session writes
--     pending changes before each query, which is why a changed row is saved before the next one.
--   * Ranking/Place.antt: the loop of `place_in_tiers`. Ranking/Place/Refines.antt has a board
--     beside it, the list of the courses of each tier.
--   * Ranking/Normalize.antt: `_normalize_positions`.
--   * Ranking/Compare.antt: the checks of `compare_courses` and the move of the winner.
--   * Ranking/Snapshot.antt: the entries, the confidence and the version of `_stage_snapshot`. The
--     courses of the rows are there, as the foreign keys make sure; the course payload and the round
--     statistics of an entry are left out. An outcome is one of the three that the handlers store.
--   * Ranking/Projections.antt: the rows of `user_course_ratings` that follow a snapshot.
--   * Ranking/Handlers.antt: `place_in_tiers`, `compare_courses` and `_stage_snapshot` as functions
--     from the state of the database to the state that is committed and the answer, or to the error
--     that is raised, in which case the transaction is rolled back. An exception that is no
--     HTTPException, such as a KeyError, is the error 500.
-- A course id below the handlers is one that `require_course` has resolved. Writers of one user's rows
-- take the lock of that user first, so the steps of one handler are not interleaved with another's.
--
-- The rounds (services/api/app/rounds.py). A round is a game that a user logged on a course, with its
-- companions; the course states and the feed events of the user follow it, and the ranking reads it.
--   * Rounds.antt: the tables in `RoundState`, which holds the state of the ranking. The visibilities
--     `private`, `friends` and `public` are `only_me`, `friends` and `everyone`.
--   * Rounds/Companions.antt, Rounds/Output.antt and Rounds/Refresh.antt: the helpers that validate,
--     replace and notify companions, show a round, and compute the course state from the rounds. A
--     course state is kept for a course that onboarding named; whether it did is an argument.
--   * Rounds/Handlers.antt: `create_round`, `list_rounds`, `round_summary` and `get_round`.
--   * Rounds/Update.antt and Rounds/Delete.antt: `update_round` and `delete_round`.
--   * Rounds/Played.antt: `list_course_states` and `seed_onboarding_played_courses`; the courses that
--     the seeded ids resolve to are an argument.
--   * Rounds/Consistent.antt and Rounds/Kept.antt: sequences of the requests that write.
-- A payload is taken after its validators. The order by a column with nulls is that of PostgreSQL.
--
-- The social part (services/api/app/social.py). Users follow, block and mute each other; these
-- relations decide what the feed, the reactions and the summaries show.
--   * Social.antt: the tables in `SocialState`, which holds the state of the rounds.
--   * Social/Graph.antt: `follow_user`, `block_user`, `mute_user`, their inverses and the public profile.
--   * Social/Feed.antt: `activity_feed`. Its `while` loop takes fuel, one more than the rows that the
--     query selects; each turn but the last passes over a row at least, so that it never runs out. A
--     cursor is the pair of the time and the id that its text encodes.
--   * Social/Reactions.antt: `add_reaction`, `remove_reaction` and `get_activity`.
--   * Social/Lists.antt and Social/Contacts.antt: the lists of users and notifications, and the contacts
--     that are linked by keyed hashes, which are numbers here.
--   * Social/Summary.antt: `get_user_round_summary`.
--
-- The photos (services/api/app/course_images/repository.py and the course_photo_*.py files beside it).
-- Users upload photos of a course, moderators decide on them, and a scorer, which asks a provider
-- outside, approves the good ones.
--   * Photos.antt: the rows of `course_images` that the rest needs. A time counts microseconds.
--   * Photos/Moderate.antt: `set_moderation`, `feature_user_image` and the handlers of
--     course_photo_moderation.py, behind their guard of administrators.
--   * Photos/Score.antt: `claim_for_scoring`, `complete_scoring`, `release_score_claim` and
--     `record_permanent_score_failure`, each one transaction, and the run around the call of the
--     provider, whose outcome and the transactions meanwhile are arguments. The threshold of an
--     approval is the least whole number that is not below the setting.
--   * Photos/Add.antt: `add_user_image` with its three attempts; what other transactions commit between
--     the read of a position and the commit, or the next read, is an argument of each attempt. A
--     rollback ends the lock of the round, which the handler took before it counted.
--   * Photos/Upload.antt: `confirm_upload` and `discard_upload`. The object storage is a parameter,
--     `Storage`, and the calls that change it are listed in the state.
--   * Photos/Steps.antt: the steps of all of these one after another.
-- The four parts share one database: a state of the social part has the state of the rounds as its
-- field `base`, as has a state of the photos, and that has the state of the ranking as its field
-- `ranking`.
--
-- The rate limiter (services/api/app/core/rate_limit.py). A guard takes a token from a bucket, or
-- counts against a daily quota, in a script that Redis runs as one step.
--   * RateLimit/Bucket.antt: `TOKEN_BUCKET_LUA`. A token is divided into `unit` units, so that a
--     millisecond refills the whole number `refill` of units; a rate of r tokens a second is any pair
--     with refill / unit = r / 1000. The expiry of a key is part of the stored bucket. The script
--     computes in binary doubles, and here the fractions are exact: where the tokens come within a
--     rounding error of the cost, as at the very millisecond that a refusal names for the retry, the
--     script may decide otherwise.
--   * RateLimit/Quota.antt: `FIXED_QUOTA_LUA`.
--   * RateLimit/Limiter.antt: `RateLimiter`, `apply_rate_limit` and the guards. The state is what
--     Redis holds at each key, the alerts that were recorded and the headers of the response. Whether
--     a call arrives, and the clock it sees, are arguments of each call. The keyed digest of an
--     identity is a parameter.
--   * RateLimit/Alerts.antt: `RateLimitAlertObserver` (services/api/app/core/rate_limit_alerts.py),
--     which the limiter calls with each denial and each failure. A key is the list of the parts that
--     the code joins with colons. A call answers the alerts that it sends.
--   * RateLimit/Endpoints.antt: the guard of each endpoint, with its policy and its identities.
--
-- The lock (services/api/app/core/distributed_lock.py). Lock.antt is `RedisLock`: its breaker, its two
-- calls of Redis, and the steps of several processes that share one Redis, in any order. A token is a
-- number that no process has drawn before, which is what the uuid stands for; a key is named by its
-- digest. A call may be lost, or its answer; and Redis may drop any keys before they expire, as an
-- eviction or a restart does. The lock is then no longer the process's own, so that two may go on.
--
-- The lookups (services/api/app/domain.py). Domain/Course.antt is `require_course`,
-- Domain/Courses.antt is `require_courses`, and Domain/User.antt is `stored_user`.
-- Domain/Audience.antt is `blocked_ids`, `muted_ids` and the friends of `get_friend_rankings`;
-- Domain/People.antt is `notifications_enabled`, the names and the notifications.
--
-- Base.antt passes on the names that the modules share: Boolean tests on numbers, lists, Python's
-- `insert` and `sorted` (Base/Sorted.antt), its slices (Base/Slices.antt) and `strip` (Base/Texts.antt),
-- rows under a primary key and relations between rows (Base/Distinct.antt), the error results of
-- handlers (Base/Http.antt) and handlers that change a state and may raise (Base/Exec.antt). All loops but that of the feed are
-- structural recursion over lists; the digits of a number are on fuel, one more than the number.
--
-- Not modelled: the text of a log line, the time stamps of rows, the binary rounding of a float below
-- the last kept digit and that of the script of the buckets, the delivery of alerts and of pushed notifications, the validators of payloads,
-- and of social.py the search, the suggestions, the thoughts of friends and the courses of a user.
-- The photos of Wikimedia, the choice of a hero among photos and the queue of the moderators are not
-- there. Course ratings, trip plans, featured courses, saved courses, the catalog, reports,
-- administration, configuration and authentication are parts that no file models, and neither are the
-- clients of the service.
mod Base
pub mod Ranking
pub mod RateLimit
pub mod Domain
pub mod Lock
pub mod Rounds
pub mod Social
pub mod Photos
