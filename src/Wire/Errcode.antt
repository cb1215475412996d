-- ===== src/Wire/Errcode.antt =====
-- The ERRCODE_ constants of src/common/defs.hpp.
use octnet_tftp.Base.{ℕ}

abbrev pub undefined : ℕ
undefined = 0

abbrev pub file_not_found : ℕ
file_not_found = 1

abbrev pub access_violation : ℕ
access_violation = 2

abbrev pub disk_full : ℕ
disk_full = 3

abbrev pub illegal_op : ℕ
illegal_op = 4

abbrev pub unknown_transfer_id : ℕ
unknown_transfer_id = 5

abbrev pub file_already_exists : ℕ
file_already_exists = 6

abbrev pub file_no_such_user : ℕ
file_no_such_user = 7
