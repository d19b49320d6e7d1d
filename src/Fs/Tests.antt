-- ===== src/Fs/Tests.antt =====
-- Blocks and inodes on concrete values.
use octox.Base.{ℕ, ◌<◌, ◌≡◌, ◌≢◌, refl, ap, sym, ◌∙◌, ◌/◌, ◌==◌, if◌then◌else◌, arith}
use octox.Fs.Defs.{SuperBlock, Disk, Addrs, balloc, bblock}
use octox.Fs.Balloc.{BlankPast, FreePanics, bfree-balloc_panicked}
use octox.Fs.Bmap.{slot, index}
use octox.Fs.Read.{read, read_done}
use octox.Fs.Aligned.{to_kernel, Present, contents, read-contents}
use octox.Vm.Copy.{overwrite}

-- 100 blocks, all of them free.
abbrev image : SuperBlock
image = record { size = 100; ninodes = 32; inodestart = 32; bmapstart = 45 }

abbrev zeros : Disk
zeros b i = 0

small : image.size < 8192
small = omega arith

blank : BlankPast image zeros
blank b i lt ne = refl

bfree-balloc_panicked_example : FreePanics image (balloc image zeros)
bfree-balloc_panicked_example = bfree-balloc_panicked image zeros small blank

-- Block 1 is the first block of the inode.
abbrev two_taken : Disk
two_taken b i = if b == bblock image 0 then (if i == 0 then 6 else 0) else 0

abbrev first_block : Addrs
first_block k = if k == 0 then 1 else 0

abbrev memory : ℕ → ℕ
memory a = 0

filled : slot first_block two_taken (index (32 / 1024)) ≢ 0
filled e = ground (arith, e)

first_block-Present : Present first_block two_taken 0 24
first_block-Present p low high =
    let here : p / 1024 ≡ 0 = omega (arith, high) in
    (
      (λ e. at_zero (ap (λ b. slot first_block two_taken (index b)) (sym here) ∙ e)),
      omega (arith, high),
    )
  where
    at_zero : slot first_block two_taken (index 0) ≢ 0
    at_zero e = ground (arith, e)

read-contents_example :
    read to_kernel image 1024 0 24 5000 memory first_block two_taken
    ≡ read_done 24
        (overwrite memory 5000 (contents first_block two_taken 0 24))
        first_block
        two_taken
read-contents_example =
    read-contents first_block two_taken image 1024 0 24 5000 memory (omega arith) refl (omega arith)
      first_block-Present
