-- ===== src/Names/Examples.antt =====
-- Releases and names of images.
use docker_stuff.Base.{[], codes, arith}
use docker_stuff.Text.Split.{Lacks}
use docker_stuff.Names.{KernelVersionInfo}

abbrev old_kernel : KernelVersionInfo
old_kernel = record { kernel = 3; major = 2; minor = 40; flavor = codes "23-generic" }

abbrev new_kernel : KernelVersionInfo
new_kernel = record { kernel = 3; major = 8; minor = 0; flavor = [] }

repo-Lacks : Lacks b':' (codes "5000/hipache")
repo-Lacks = omega arith
