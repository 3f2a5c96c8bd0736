-- ===== src/Base/Rules.antt =====
-- Rule sets for the tactics.
use native.Mathlib.Omega.{arith}
use wftpd_linux.Base.Tests.{ltb→lt, lt→ltb, leb→le}
use wftpd_linux.Base.Dict.{lookup-insert, lookup-remove, lookup-insert_self, lookup-remove_self}

-- Arithmetic through the Boolean tests.
pub ruleset tests = (arith, ltb→lt, lt→ltb, leb→le)

-- The laws of maps.
pub ruleset maps = (lookup-insert, lookup-remove)

pub ruleset maps_self = (lookup-insert_self, lookup-remove_self)
