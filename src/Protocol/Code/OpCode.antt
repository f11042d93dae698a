-- ===== src/Protocol/Code/OpCode.antt =====
-- The operation codes of internal/protocol/protocol.go, in the order of the source's `iota`.
use olricdb.Prelude.{ℕ}

abbrev pub ex_put : ℕ
ex_put = 0

abbrev pub ex_put_ex : ℕ
ex_put_ex = 1

abbrev pub ex_get : ℕ
ex_get = 2

abbrev pub ex_delete : ℕ
ex_delete = 3

abbrev pub ex_destroy : ℕ
ex_destroy = 4

abbrev pub ex_lock_with_timeout : ℕ
ex_lock_with_timeout = 5

abbrev pub ex_unlock : ℕ
ex_unlock = 6

abbrev pub ex_incr : ℕ
ex_incr = 7

abbrev pub ex_decr : ℕ
ex_decr = 8

abbrev pub ex_get_put : ℕ
ex_get_put = 9

abbrev pub update_routing : ℕ
update_routing = 10

abbrev pub put_backup : ℕ
put_backup = 11

abbrev pub delete_prev : ℕ
delete_prev = 12

abbrev pub get_prev : ℕ
get_prev = 13

abbrev pub get_backup : ℕ
get_backup = 14

abbrev pub find_lock : ℕ
find_lock = 15

abbrev pub lock_prev : ℕ
lock_prev = 16

abbrev pub unlock_prev : ℕ
unlock_prev = 17

abbrev pub delete_backup : ℕ
delete_backup = 18

abbrev pub destroy_dmap : ℕ
destroy_dmap = 19

abbrev pub move_dmap : ℕ
move_dmap = 20

abbrev pub backup_move_dmap : ℕ
backup_move_dmap = 21

abbrev pub is_part_empty : ℕ
is_part_empty = 22

abbrev pub is_backup_empty : ℕ
is_backup_empty = 23
