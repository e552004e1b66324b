-- ===== src/Register.antt =====
-- project/projet_PNL/fs.c: loading and unloading the module, with the inode cache of super.c and the
-- character devices of fileinfo.c and defrag.c. Mounting only calls the kernel.
use pnl.Base.{
  ℕ, ◌≡◌, ◌⊎◌, inl, inr, refl, sym, ap, fun_ext, Bool-cases, Bool, true, false, Option, none, some,
  arith, if◌then◌else◌, not, update,
}
use pnl.Fs.{Errno, Result, ok, err, fault, enomem}

-- The devices with their file operations.
pub data Device : Type 0 where
  fileinfo_device defrag_device : Device

abbrev pub Chrdevs : Type 0
Chrdevs = ℕ → Option Device

-- What the module holds, with the kernel's table of character devices; a negative major is `none`.
pub record Module : Type 0 where
  pub ouichefs_inode_cache : Bool
  pub file_system_type : Bool
  pub chrdevs : Chrdevs
  pub fileinfo_major : Option ℕ
  pub defrag_major : Option ℕ

-- linux/slab.h, linux/fs.h: whether `kmem_cache_create` finds memory, what `register_filesystem`
-- returns, and the free major number that `register_chrdev` picks, if it does not fail.
pub record LoadApi : Type 0 where
  pub cache_works : Bool
  pub register_filesystem : Option Errno
  pub free_major : Chrdevs → Option ℕ
  pub free_major_lem : (t : Chrdevs) (m : ℕ) → free_major t ≡ some m → t m ≡ none

-- `unregister_chrdev`, which looks a major up.
abbrev pub unregister_chrdev : Option ℕ → Chrdevs → Chrdevs
unregister_chrdev none t = t
unregister_chrdev (some m) t = update t m none

-- What `register_chrdev` does with the major that it picks.
abbrev pub register_chrdev : Option ℕ → Device → Chrdevs → Chrdevs
register_chrdev none device t = t
register_chrdev (some m) device t = update t m (some device)

module _ ⦃api : LoadApi⦄ where
  open api use {cache_works, register_filesystem, free_major, free_major_lem}

  unfoldable pub load_fileinfo_ioctl : Module → Module
  load_fileinfo_ioctl h =
      let major = free_major h.chrdevs in
      record h { chrdevs = register_chrdev major fileinfo_device h.chrdevs; fileinfo_major = major }

  unfoldable pub load_defrag_ioctl : Module → Module
  load_defrag_ioctl h =
      let major = free_major h.chrdevs in
      record h { chrdevs = register_chrdev major defrag_device h.chrdevs; defrag_major = major }

  unfoldable pub unload_fileinfo_ioctl : Module → Module
  unload_fileinfo_ioctl h = record h { chrdevs = unregister_chrdev h.fileinfo_major h.chrdevs }

  unfoldable pub unload_defrag_ioctl : Module → Module
  unload_defrag_ioctl h = record h { chrdevs = unregister_chrdev h.defrag_major h.chrdevs }

  unfoldable pub ouichefs_init_inode_cache : Module → Result (Unit {0}) × Module
  ouichefs_init_inode_cache h =
      if not cache_works then (err enomem, h) else (ok tt, record h { ouichefs_inode_cache = true })

  unfoldable pub ouichefs_destroy_inode_cache : Module → Module
  ouichefs_destroy_inode_cache h = record h { ouichefs_inode_cache = false }

  -- With what `register_filesystem` returned.
  unfoldable pub registered : Option Errno → Module → Result (Unit {0}) × Module
  registered (some e) h = (err e, ouichefs_destroy_inode_cache h)
  registered none h =
      (ok tt, load_defrag_ioctl (load_fileinfo_ioctl (record h { file_system_type = true })))

  -- With the outcome of the first step.
  unfoldable pub cache_made : Result (Unit {0}) × Module → Result (Unit {0}) × Module
  cache_made (ok u, h) = registered register_filesystem h
  cache_made (err e, h) = (err e, h)
  cache_made (fault, h) = (fault, h)

  unfoldable pub ouichefs_init : Module → Result (Unit {0}) × Module
  ouichefs_init h = cache_made (ouichefs_init_inode_cache h)

  -- `unregister_filesystem` fails only for a file system that is not registered.
  unfoldable pub ouichefs_exit : Module → Module
  ouichefs_exit h =
      unload_defrag_ioctl (
        unload_fileinfo_ioctl
          (ouichefs_destroy_inode_cache (record h { file_system_type = false })))

  -- What one device took is given back, also when another one was added meanwhile.
  chrdevs_back :
      (t : Chrdevs) (a b : Option ℕ) (x y : Device)
      → ((m : ℕ) → a ≡ some m → t m ≡ none)
      → ((m : ℕ) → b ≡ some m → register_chrdev a x t m ≡ none)
      → unregister_chrdev b (unregister_chrdev a (register_chrdev b y (register_chrdev a x t))) ≡ t
  chrdevs_back t none none x y p q = refl
  chrdevs_back t none (some n) x y p q = fun_ext λ m. ground (arith, q n refl)
  chrdevs_back t (some k) none x y p q = fun_ext λ m. ground (arith, p k refl)
  chrdevs_back t (some k) (some n) x y p q = fun_ext λ m. ground (arith, p k refl, q n refl)

  loaded-chrdevs :
      (h : Module) → (ouichefs_exit (load_defrag_ioctl (load_fileinfo_ioctl h))).chrdevs ≡ h.chrdevs
  unfolding ouichefs_exit unload_defrag_ioctl unload_fileinfo_ioctl ouichefs_destroy_inode_cache
      load_defrag_ioctl load_fileinfo_ioctl
  loaded-chrdevs h =
      chrdevs_back h.chrdevs (free_major h.chrdevs)
        (free_major (register_chrdev (free_major h.chrdevs) fileinfo_device h.chrdevs))
        fileinfo_device defrag_device (free_major_lem h.chrdevs)
        (free_major_lem (register_chrdev (free_major h.chrdevs) fileinfo_device h.chrdevs))

  -- With the outcome of `kmem_cache_create`.
  abbrev first_step : Module → Bool → Result (Unit {0}) × Module
  first_step h b =
      cache_made
        (if not b then (err enomem, h) else (ok tt, record h { ouichefs_inode_cache = true }))

  init-registered :
      (h : Module)
      → cache_works ≡ true
      → ouichefs_init h ≡ registered register_filesystem (record h { ouichefs_inode_cache = true })
  unfolding ouichefs_init ouichefs_init_inode_cache cache_made
  init-registered h e = ap (first_step h) e

  init-fails : (h : Module) → cache_works ≡ false → ouichefs_init h ≡ (err enomem, h)
  unfolding ouichefs_init ouichefs_init_inode_cache cache_made
  init-fails h e = ap (first_step h) e

  -- From the registration of the file system on.
  exit-registered :
      (r : Option Errno) (h : Module)
      → h.ouichefs_inode_cache ≡ false
      → let r = registered r (record h { ouichefs_inode_cache = true }) in
        ((e : Errno) × (r ≡ (err e, h)))
        ⊎ (r.0 ≡ ok tt)
          × (r.1.ouichefs_inode_cache ≡ true)
          × (r.1.file_system_type ≡ true)
          × ((ouichefs_exit r.1).ouichefs_inode_cache ≡ false)
          × ((ouichefs_exit r.1).file_system_type ≡ false)
          × ((ouichefs_exit r.1).chrdevs ≡ h.chrdevs)
  unfolding registered ouichefs_destroy_inode_cache
  exit-registered (some e) h no_cache =
      inl (e, ap (λ c. (err e, record h { ouichefs_inode_cache = c })) (sym no_cache))
  exit-registered none h no_cache = inr (
    refl,
    unfold load_defrag_ioctl load_fileinfo_ioctl in refl,
    unfold load_defrag_ioctl load_fileinfo_ioctl in refl,
    unfold ouichefs_exit unload_defrag_ioctl unload_fileinfo_ioctl in refl,
    unfold ouichefs_exit unload_defrag_ioctl unload_fileinfo_ioctl load_defrag_ioctl
          load_fileinfo_ioctl in
        refl,
    loaded-chrdevs (record h { ouichefs_inode_cache = true; file_system_type = true }),
  )

  -- For a module that holds no inode cache: `ouichefs_init` either fails and
  -- changes nothing, or succeeds, and then the inode cache and the file system are there, and
  -- `ouichefs_exit` gives both back and leaves the table of character devices as it was before,
  -- whether or not a major number was found for each device.
  pub exit-init :
      (h : Module)
      → h.ouichefs_inode_cache ≡ false
      → ((e : Errno) × (ouichefs_init h ≡ (err e, h)))
        ⊎ ((ouichefs_init h).0 ≡ ok tt)
          × ((ouichefs_init h).1.ouichefs_inode_cache ≡ true)
          × ((ouichefs_init h).1.file_system_type ≡ true)
          × ((ouichefs_exit (ouichefs_init h).1).ouichefs_inode_cache ≡ false)
          × ((ouichefs_exit (ouichefs_init h).1).file_system_type ≡ false)
          × ((ouichefs_exit (ouichefs_init h).1).chrdevs ≡ h.chrdevs)
  exit-init h no_cache = elim (Bool-cases cache_works) [
    | inl works ↦ rw (init-registered h works) (exit-registered register_filesystem h no_cache)
    | inr fails ↦ inl (enomem, init-fails h fails)
  ]
