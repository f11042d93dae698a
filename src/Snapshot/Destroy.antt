-- ===== src/Snapshot/Destroy.antt =====
-- `DestroyDMap`: what it leaves on the disk.
use olricdb.Prelude.{nat_eq, text_eq}
use olricdb.Prelude.Dict.{Dict}
use olricdb.Prelude.Codec.{Codec}
use olricdb.Storage.Store.{Storage}
use olricdb.Snapshot.{Snapshot}
