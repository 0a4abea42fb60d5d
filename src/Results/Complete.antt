-- ===== src/Results/Complete.antt =====
-- The whole of `results`: it answers whenever the rows parse, and the limit only cuts the answer.
use executorch_bencher.Externals.{Externals}
use executorch_bencher.Results.Fold.{Groups}
