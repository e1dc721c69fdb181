-- ===== src/Lib.antt =====
-- The Echo robot driver (module/): a Linux character device that records the movements of three
-- servos and replays them.
--
-- A press of the joystick (module/echo_joystick.c) goes to the state machine
-- (module/echo_state.c), which moves a servo (module/echo_servo.c) and records the movement
-- (module/echo_buffer.c). Silence or a request starts the replay worker of the buffer, which moves
-- the servos and reports its end to the state machine. User space reads snapshots and makes
-- requests through module/echo_chardev.c. The parts reach one another through tables of callbacks,
-- which module/echo_main.c fills.
--
-- Types: the constants and types of module/echo_types.h.
-- Kernel: what the driver uses of the kernel and does not implement, as parameters: a kfifo with
-- the documented behaviour of its macros, and the conversions of time. The answers of the I2C bus
-- are a parameter of Servo, and what other threads do while one sleeps is a parameter of each
-- operation that sleeps. Tests/Fixture has a kernel that meets the laws.
-- Servo: module/echo_servo.c. An i2c client is the list of the writes that its chip was sent.
-- Servo/Power is what the PCA9685 makes of those to its mode and its prescaler, from its data
-- sheet.
-- Buffer: module/echo_buffer.c, with the replay worker over any callbacks.
-- State: module/echo_state.c, over any callbacks; its context is reached through a pointer into
-- the shared memory, as in the source.
-- Joystick: the interrupt thread of module/echo_joystick.c, exactly as its braces have it.
-- Device: struct echo_device of module/echo_main.h with the contexts that it points to, and the
-- callbacks of module/echo_main.c. Device/Events runs whole operations one after the other, any
-- threads' work standing in for a sleep of the replay worker. Device/Spec is what the robot
-- promises, three arms with a recording and a mode, and its children join the device to it.
-- Threads: the same operations cut into their sections, as threads in any number with the timer
-- and the work queue of the kernel, in any order (a step relation). Threads/Alone and
-- Threads/Worker join them to the whole operations of State, Buffer and Chardev. Threads/Waiting
-- has the writers of REPLAY among them, which clear replay_finished, start the replay and sleep
-- until the flag is set or a signal comes; its Budget and Ending are to them what Threads/Budget
-- and Threads/Rest are to the threads. Threads/News has readers in any number among them, each of
-- which waits for new_data_avail, clears it and reads the fields of the snapshot one after the
-- other. Threads/Modes is the state machine of the modes, with who does each step. Threads/Spec is
-- the robot of Device/Spec with calls under way: its children join every section of the threads,
-- of the timer's function and of the worker to it, tell the story of what the worker has played,
-- and say what keeps a recording playable. kmalloc_array gives the worker room for 256 movements
-- with any contents, or nothing. Threads/Replay and Threads/Teaching follow what is to end the
-- replay mode and the teach mode, Threads/Budget counts the sections that are left when no new
-- call comes, and Threads/Rest says where those lead. Threads/Stuck is a mode in which nothing
-- goes on by itself, and Threads/Hang and Threads/Stall are two orders of sections that lead to
-- one. Threads/Undone is a request to teach beside a replay.
-- Chardev: the file operations of module/echo_chardev.c and the structures of module/echo_ioctl.h.
-- Chardev/Refinement joins the calls of the file to the robot of Device/Spec.
-- Proc: the entry of module/echo_proc.c and its text. What seq_printf writes for a number is a
-- parameter.
-- Text: texts as lists of bytes.
-- Resources and the modules named Create: the create and destroy functions of each part, with what
-- they take from the kernel and give back. A resource is held once and given back once; what the
-- kernel answers to a create function is a parameter of it. What is held does not say who still
-- uses it: that is Init/Unload.
-- Init: echo_init and echo_exit of module/echo_main.c, over those of the parts. Init/Unload is
-- echo_exit part by part, among the sections of Threads: what each part waits for, which contexts
-- are freed by then, and which the next section of the timer, of the worker and of a thread uses.
-- The kernel unloads no module whose file is open, so no call of user space comes in it.
-- Controller: the key handler and the replay thread of app/echo_controller.c, over the file
-- operations, each call at its own time and with its own sleep. Controller/Keys joins the keys to
-- the robot of Device/Spec.
-- Application: the threads and the signal handler of app/echo_app.c, from the call that a thread
-- waits in to the next, in any order, over the file operations and the controller.
-- Visualizer: the bars of app/echo_visualizer.c in their buffers, and the lines of the screen; how
-- ncurses fills a field is a parameter.
--
-- A function that changes state takes the state and returns the new one. An int result is an
-- integer of Prelude/Int, an error a negative one. A section under a lock is one step; where the
-- source releases a lock in the middle of an operation, the operation is the composition of its
-- sections, and Device/Races and the children of Threads show what can come between two of them.
-- Counters of type atomic_t wrap at 2^32 and are read as u32. unsigned long has 64 bits. The loops
-- of the worker run on the number of entries left, which is what bounds them in the source, so no
-- fuel is needed. The count of open files is an unbounded integer.
--
-- Not modelled: the printing of messages, the calls that start, refresh and stop ncurses, the
-- files seq_file and procfs make of a text, and the lock operations themselves except irq_lock,
-- which the source leaves held. The array of the worker is not among the resources of Resources. A
-- press is modelled from echo_state_handle_input on, for no press reaches it in the code as it is
-- written (Joystick/Lock). The statement that stands inside the argument list of mod_timer in
-- echo_state_set_mode, which no compiler accepts, is read as the statement before that call.
pub mod Prelude
pub mod Types
pub mod Kernel
pub mod Resources
pub mod Text
pub mod Servo
pub mod Buffer
pub mod State
pub mod Joystick
pub mod Device
pub mod Threads
pub mod Chardev
pub mod Proc
pub mod Init
pub mod Controller
pub mod Application
pub mod Visualizer
mod Tests
