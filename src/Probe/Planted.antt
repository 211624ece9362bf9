-- ===== src/Probe/Planted.antt =====
-- Which probes are planted after the load and the unload of the module.
use linux_kernel_programming.Prelude.{ℕ, ◌≡◌, refl, true, false, List, [], ◌∷◌}
use linux_kernel_programming.Prelude.Int.{ℤ, pos, negsuc}
use linux_kernel_programming.Probe.{
  Probe, fair_return, rt_return, enqueue, dequeue, hrtimer_wakeup, nanosleep, timer, cs, tick,
  wakeup, Kernel, init_order, exit_order, or_failed, register_all, unregister_all, jprobe_init,
  jprobe_exit,
}

-- What is relied on of the kernel: a registration with a code that is not negative plants the probe, and none takes a
-- probe out; unregistering takes the probe out, planted or not, and plants none.
pub record IsKernel {K : Type 0} (kernel : Kernel K) : Type 0 where
  pub registered :
      (p : Probe) (k k' : K) (n : ℕ)
      → kernel.register p k ≡ (pos n, k')
      → kernel.planted p k' ≡ true
  pub stays :
      (p q : Probe) (k : K)
      → kernel.planted q k ≡ true
      → kernel.planted q (kernel.register p k).1 ≡ true
  pub unregistered : (p : Probe) (k : K) → kernel.planted p (kernel.unregister p k) ≡ false
  pub stays_out :
      (p q : Probe) (k : K)
      → kernel.planted q k ≡ false
      → kernel.planted q (kernel.unregister p k) ≡ false

-- The probe is in the list.
pub data In (p : Probe) : List Probe → Type 0 where
  first : (ps : List Probe) → In p (p ∷ ps)
  next : (q : Probe) (ps : List Probe) → In p ps → In p (q ∷ ps)

every-In : (p : Probe) → In p exit_order
every-In fair_return = first _
every-In rt_return = next _ _ (first _)
every-In enqueue = next _ _ (next _ _ (first _))
every-In dequeue = next _ _ (next _ _ (next _ _ (first _)))
every-In hrtimer_wakeup = next _ _ (next _ _ (next _ _ (next _ _ (first _))))
every-In nanosleep = next _ _ (next _ _ (next _ _ (next _ _ (next _ _ (first _)))))
every-In timer = next _ _ (next _ _ (next _ _ (next _ _ (next _ _ (next _ _ (first _))))))
every-In cs = next _ _ (next _ _ (next _ _ (next _ _ (next _ _ (next _ _ (next _ _ (first _)))))))
every-In tick =
    next _ _ (next _ _ (next _ _ (next _ _ (next _ _ (next _ _ (next _ _ (next _ _ (first _))))))))
every-In wakeup = next _ _ (
    next _ _ (next _ _ (next _ _ (next _ _ (next _ _ (next _ _ (next _ _ (next _ _ (first _)))))))))

module _ {K : Type 0} (kernel : Kernel K) (laws : IsKernel kernel) where
  unregister_all-kept :
      (ps : List Probe) (p : Probe) (k : K)
      → kernel.planted p k ≡ false
      → kernel.planted p (unregister_all kernel ps k) ≡ false
  unfolding unregister_all
  unregister_all-kept [] p k h = h
  unregister_all-kept (q ∷ ps) p k h =
      unregister_all-kept ps p (kernel.unregister q k) (laws.stays_out q p k h)

  unregister_all-out :
      (p : Probe) (ps : List Probe) (k : K)
      → In p ps
      → kernel.planted p (unregister_all kernel ps k) ≡ false
  unfolding unregister_all
  unregister_all-out p _ k (first ps) =
      unregister_all-kept ps p (kernel.unregister p k) (laws.unregistered p k)
  unregister_all-out p _ k (next q ps i) = unregister_all-out p ps (kernel.unregister q k) i

  -- After the unload none of the module's probes is planted, whichever were before: also after a load that planted only
  -- some of them.
  pub jprobe_exit-out : (p : Probe) (k : K) → kernel.planted p (jprobe_exit kernel k) ≡ false
  unfolding jprobe_exit
  jprobe_exit-out p k = unregister_all-out p exit_order k (every-In p)

  register_all-stays :
      (ps : List Probe) (q : Probe) (k : K)
      → kernel.planted q k ≡ true
      → kernel.planted q (register_all kernel ps k).1 ≡ true
  unfolding register_all
  register_all-stays [] q k h = h
  register_all-stays (p ∷ ps) q k h =
      by_code (kernel.register p k).0 (kernel.register p k).1
        (register_all kernel ps (kernel.register p k).1).1
        (register_all kernel ps (kernel.register p k).1).0 (laws.stays p q k h)
        (register_all-stays ps q (kernel.register p k).1 (laws.stays p q k h))
    where
      by_code :
          (ret : ℤ) (x y : K) (r : ℤ)
          → kernel.planted q x ≡ true
          → kernel.planted q y ≡ true
          → kernel.planted q (or_failed kernel ret x (r, y)).1 ≡ true
      by_code (pos n) x y r h k = k
      by_code (negsuc n) x y r h k = h

  register_all-planted :
      (q : Probe) (ps : List Probe) (k : K)
      → In q ps
      → (register_all kernel ps k).0 ≡ pos 0
      → kernel.planted q (register_all kernel ps k).1 ≡ true
  unfolding register_all
  register_all-planted q _ k (first ps) e = by_code (kernel.register q k) refl e
    where
      by_code :
          (r : ℤ × K)
          → kernel.register q k ≡ r
          → (or_failed kernel r.0 r.1 (register_all kernel ps r.1)).0 ≡ pos 0
          → kernel.planted q (or_failed kernel r.0 r.1 (register_all kernel ps r.1)).1 ≡ true
      by_code (pos n, k') w e = register_all-stays ps q k' (laws.registered q k k' n w)
      by_code (negsuc n, k') w e = absurd cc
  register_all-planted q _ k (next p ps i) e =
      by_code (kernel.register p k) (λ k' h. register_all-planted q ps k' i h) e
    where
      by_code :
          (r : ℤ × K)
          → ((k' : K)
              → (register_all kernel ps k').0 ≡ pos 0
              → kernel.planted q (register_all kernel ps k').1 ≡ true)
          → (or_failed kernel r.0 r.1 (register_all kernel ps r.1)).0 ≡ pos 0
          → kernel.planted q (or_failed kernel r.0 r.1 (register_all kernel ps r.1)).1 ≡ true
      by_code (pos n, k') rest e = rest k' e
      by_code (negsuc n, k') rest e = absurd cc

  -- When jprobe_init returns 0, each of the six probes that it registers is planted.
  pub jprobe_init-planted :
      (p : Probe) (k : K)
      → In p init_order
      → (jprobe_init kernel k).0 ≡ pos 0
      → kernel.planted p (jprobe_init kernel k).1 ≡ true
  unfolding jprobe_init
  jprobe_init-planted p k i e = register_all-planted p init_order k i e
