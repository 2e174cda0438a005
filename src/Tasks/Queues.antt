-- ===== src/Tasks/Queues.antt =====
-- src/async_gateway/tasks/queues.py: the names of the queues.
use async_task.Prelude.{◌||◌, String, str_eq, Option, none, some, if◌then◌else◌}
use Prim.Native.String

abbrev pub transfer_queue : String
transfer_queue = "transfer:transfer"

abbrev pub default_pool : String
default_pool = "light-poll"

unfoldable pub pool_of : Option String → String
pool_of none = default_pool
pool_of (some pool) =
    if str_eq pool "" || str_eq pool "shared" || str_eq pool "default" then default_pool else pool

unfoldable pub poll_queue : Option String → String
unfolding pool_of
poll_queue pool = String.◌++◌ "poll:" (pool_of pool)
