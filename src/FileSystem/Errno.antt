-- ===== src/FileSystem/Errno.antt =====
-- The values of errno.h that src/filesystem.c returns, negated.
use sistemas_operativos.Prelude.{ℤ, neg}

abbrev pub eperm : ℤ
eperm = neg 1

abbrev pub enoent : ℤ
enoent = neg 2

abbrev pub eio : ℤ
eio = neg 5

abbrev pub eexist : ℤ
eexist = neg 17

abbrev pub enotdir : ℤ
enotdir = neg 20

abbrev pub eisdir : ℤ
eisdir = neg 21

abbrev pub einval : ℤ
einval = neg 22

abbrev pub enospc : ℤ
enospc = neg 28

abbrev pub enametoolong : ℤ
enametoolong = neg 36

abbrev pub enotempty : ℤ
enotempty = neg 39

abbrev pub eacces : ℤ
eacces = neg 13
