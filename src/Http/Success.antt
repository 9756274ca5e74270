-- ===== src/Http/Success.antt =====
-- `Success`: the answers that are no error.
use security_system_gsb.Common.{◌<◌}
use security_system_gsb.World.{World}
use security_system_gsb.Http.{Response}

abbrev pub Success : Response × World → Type 0
Success out = out.0.status < 400
