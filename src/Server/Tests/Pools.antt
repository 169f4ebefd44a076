-- ===== src/Server/Tests/Pools.antt =====
-- Runs of the operations of a pool.
use wsp.Base.{[]}
use wsp.Runtime.{Returns}
use wsp.Server.Pool.{clean}
use wsp.Server.Pool.Keeper.{shut_down}
use wsp.Server.Pool.Clean.{Cleaned}
use wsp.Server.Pool.Clean.Loop.{clean-Cleaned}
use wsp.Server.Pool.Lifecycle.Shutdown.{IsStopped, shut_down-IsStopped}
use wsp.Server.Tests.{remote, clock, joined_pool, joined_pool-IsRunning}

clean-Cleaned_example : Returns (clean clock joined_pool) (Cleaned [] clock joined_pool)
clean-Cleaned_example =
    clean-Cleaned [] clock joined_pool joined_pool-IsRunning.inv joined_pool-IsRunning.distinct

shut_down-IsStopped_example : Returns (shut_down remote joined_pool) IsStopped
shut_down-IsStopped_example = shut_down-IsStopped remote joined_pool joined_pool-IsRunning
