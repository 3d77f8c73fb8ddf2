-- ===== src/Lib.antt =====
-- A verification library for the Linux device drivers of this repository. The drivers do not call
-- one another: each is a component of its own, and talks to the kernel. A driver's state is a
-- record; an operation is one function, which takes the state and the kernel's answers and gives
-- the result, the new state and the calls that it makes. Of the functions that the drivers call,
-- only memcpy, strsep and the reading and writing of decimal numbers (printf's %d and %x, sscanf's
-- %d, atoi, sprintf of a text without arguments) have definitions here; the effects of a few
-- others on the one bit of state that a driver relies on (a timer is pending, a thread is asleep,
-- work is queued) are written out where they are used; any other is an answer that the caller of
-- the model chooses (a Boolean, an error number, a list of bytes), or, where a driver relies on
-- what it does, an interface with the documented laws.
--
-- Base has what the drivers share. Base.Tests: Boolean tests and do-notation for Option.
-- Base.Lists: lists measured by native numbers. Base.Int: C's signed integers and the error
-- numbers. Base.Bytes: memcpy, which is `none` for a copy out of bounds, and the algebra of
-- overwriting. Base.Decimal: numbers as decimal text. Base.Text: texts that end at a NUL, and
-- hexadecimal digits. Base.Ledger: what a setup or teardown path acquires and releases, as a list
-- of events, and the replay of such a list, which is `none` if something is released that is not
-- held.
--
-- Sblkdev models blockdrv/sblkdev. Sblkdev.antt has the transfers of device.c (process_request and
-- sblkdev_queue_rq; process_bio of the bio-based build); Sblkdev.Transfer, RoundTrip and Bio prove
-- them against a flat array of bytes; Sblkdev.Geometry has sblkdev_ioctl and ioctl_hdio_getgeo;
-- Sblkdev.Lifecycle has sblkdev_add and sblkdev_remove with the three build symbols that choose
-- between their variants, Sblkdev.Naming the disk that sblkdev_add describes to the kernel;
-- Sblkdev.Catalog has sblkdev_init and sblkdev_exit of main.c, with strsep as `split`;
-- Sblkdev.Catalog.Listing writes a catalog and shows what comes of it, Sblkdev.Catalog.Any takes
-- any text for one, and Sblkdev.Catalog.Failed has the devices that a failed load leaves behind.
--
-- Disk states what a block driver is for: a disk of bytes that serves requests in turn. A driver
-- is an interface there, and the request-based build, the bio-based build and the older driver
-- fill it (Disk.Requests, Disk.Bios, Disk.Older); Disk.Fresh has the device that sblkdev_add
-- allocates; Disk.Several has many disks of one driver at once, Disk.Machine the devices of
-- sblkdev behind their queues (Sblkdev.Wiring), and Disk.Loaded the disks that a load of the
-- module adds for its catalog; Disk.AtOnce has requests that are served at once (Sblkdev.Parallel:
-- a turn of a request's loop, what it moves, and what several leave on the device).
--
-- Sbd models blockdrv/older_sblkdrv/sbd.c: sbd_transfer, sbd_request, sbd_getgeometry, sbd_init,
-- sbd_exit.
--
-- Parrot models older/sysfs_sample_parrot_drv/parrot_driver.c: its device file, its four sysfs
-- attributes, its setup and teardown. Parrot.Kfifo is the interface of the kernel's FIFO,
-- Parrot.Mailbox is the specification, Parrot.Refine the refinement; Parrot.Status has the two
-- files that show the indices, Parrot.Setup the module's setup and teardown. Parrot.Race has a
-- writer and a reader at once, a statement at a time: what holds between them (Between), that
-- every step keeps it (Steps), which order explains the replies (Order), the read that comes too
-- early (Early), two writers at once (Writers), and a reset while a reader is at work (Wedged).
--
-- Ds3231 models dt_platform_drv/rtc_ds3231/ds3231.c: the temperature and the text of its sysfs
-- file (Ds3231.Show), the time and its ioctl, the probe; Ds3231.Life has the setting of the time,
-- the interrupt and the removal, Ds3231.Uapp the program uapp.c, run against the driver.
--
-- Usb models usb/laser_prsnt_input_usb/laserp.c and usb/mymouse_usb_input/mymouse_usb.c: the
-- completion handlers (Usb.Irq), the life of the URB (Usb.Link), the probes (Usb.Probe), the name
-- and the path of the input device (Usb.Names).
--
-- Cz models cz_miscdrv: the reads of the zero device of cz_enh_miscdrv.c and of cz_miscdrv.c, the
-- setup that they share, and in Cz.Sink the methods that touch no memory; Cz.Plain has the rest of
-- cz_miscdrv.c, against cz_enh_miscdrv.c. Veth models netdrv_veth/netdriver/veth_netdrv.c:
-- vnet_start_xmit, vnet_get_stats, vnet_init, vnet_exit, vnet_probe, vnet_remove, vnet_open,
-- vnet_stop; Veth.Talker is its sender userspc/talker_dgram.c, run against the driver, and
-- Veth.Listener the receiver userspc/listener_dgram.c. Veth.Parallel has several senders at once
-- in vnet_start_xmit, a load or a store at a time: what the lock keeps (Locked), that one of them
-- can move (Progress), what they add up to (Together), that all leave if each has its turns
-- (Fair), and what the statistics say meanwhile (Snapshot). Ioctl models
-- ioctl_kernel_poc/ioctl_kdrv.c: iok_ioctl, iok_open; Ioctl.History has any sequence of its calls,
-- Ioctl.Module the load and the unload, and Ioctl.User is ioctl_user_test.c, run against the
-- driver. Sleepy models sleepy_waitq/slpy.c: the readers and writers of the device are a system
-- that moves in steps, in any order; Sleepy.Wake has the wait queue with exclusive readers,
-- Sleepy.Programs the programs rd_tst.c and wr_tst.c, run against the driver, Sleepy.Module the
-- load and the unload. Workq models workq_slpydrv_plus_timer/workq_slpydrv.c: its deferred work,
-- its timer, its reads (Workq.Readers), its setup and teardown. Vmouse models
-- input_drv_virtual_mouse/input_drv_mouse.c: its setup and teardown, and in Vmouse.Reports what it
-- makes of the text of coord_gen.c. Ktimers models ktime_stuff/ktimers/ktimers.c, Kthread
-- kthread_demo/ktdemo.c, IrqWork interrupts/irq_work/irq_work.c (and IrqWork.Older its older copy
-- older/intr_ctx/intr_work.c): what runs between two points where others may run is one function,
-- and a history is a list. Chardrv models 2.6k_chardrv_template/chardrv_template.c and Platdemo
-- dt_platform_drv/platform_drv_demo_oldstyle/platdemo.c on the ledger of resources, and
-- Platdemo.Bound what the driver core does with its device and driver; Dtdemo models
-- dt_platform_drv/dtdemo_platformdrv_via_dtb/dtdemo_platdrv.c, Miscmj
-- miscmj_chardrv/miscmj_cdrv.c. Sleeps models ktime_stuff/time_lld_cookbk/delays_sleeps.c.
-- Convenient models the macros of convenient.h: PRINT_CTX and SHOW_DELTA as the text that they
-- print, Convenient.Sizes the SHOW_DELTA_ macros, Convenient.Delays the delays, with those of
-- ioctl_kernel_poc; Convenient.Older has the PRINT_CTX of the older copies of the file.
--
-- Machine integers are native numbers with the wrap-around written out: 64 bits for loff_t,
-- sector_t and unsigned long, 32 for int, 16 and 8 where the C type has them. Every loop of the
-- code runs over a list (segments, tokens, requests) or a count, and is a structural recursion;
-- there is no fuel but in Base.Decimal, where a number has fewer digits than its value and two,
-- and that many rounds are given.
--
-- Not modelled: locks and the interleavings that they exclude, but for the lock of Veth.Parallel,
-- what a write out of bounds does to the rest of the memory, the drivers' log output, the fields
-- of kernel structures that a driver fills in and never reads, and the module templates
-- lkm_template and ldm_template_drv. Device-tree files, shell scripts and makefiles are not
-- modelled.
pub mod Base
pub mod Sblkdev
pub mod Parrot
pub mod Sbd
pub mod Disk
pub mod Ds3231
pub mod Usb
pub mod Cz
pub mod Veth
pub mod Ioctl
pub mod Sleepy
pub mod Workq
pub mod Vmouse
pub mod Ktimers
pub mod Kthread
pub mod Chardrv
pub mod Platdemo
pub mod IrqWork
pub mod Convenient
pub mod Dtdemo
pub mod Miscmj
pub mod Sleeps
